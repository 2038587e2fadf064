-- ===== src/Lib.antt =====
-- Verification of whitebox-tempest-plugin, a Tempest plugin whose tests look behind the API of
-- OpenStack: they read and change the configuration of Nova on the compute hosts over SSH, restart
-- services, and compare what libvirt reports with what Nova was asked for. The development models
-- the code that the tests stand on; the tests themselves are clients of it.
--
-- The parts and their files (paths of the repository in brackets):
-- - Prelude, Python: numbers, lists and tests; what the code uses of Python's str, set, range, dict
--   and int, as functions on lists of code points and lists without repetitions.
-- - Exceptions, Exceptions/Action: the exceptions [whitebox_tempest_plugin/exceptions.py], with those
--   of tempest.lib and Python that pass through; code that may raise is a Result, and code that acts
--   on a state is an Action, which keeps the state that an exception leaves behind.
-- - Config, World: the options that the code reads [whitebox_tempest_plugin/config.py], and the
--   parameters: SSH, the clock, the services and placement APIs, and the nodes file. No theorem
--   fixes them; each names what it relies on.
-- - Config/Options, Plugin: the tables of the options [whitebox_tempest_plugin/config.py], without their
--   help, and their registration [whitebox_tempest_plugin/plugin.py], with Tempest's registrar as a
--   parameter.
-- - Hardware/CpuSpec, Hardware/Pci, Hardware/Topology: CPU specifications, PCI addresses, get_all_cpus
--   [whitebox_tempest_plugin/hardware.py]. A specification is one loop over its rules, with a
--   function for each kind of rule.
-- - Utils: the cached nodes file, the addresses of the hosts, and multicontext
--   [whitebox_tempest_plugin/utils.py]. The module's global is a field of the state Machine.
-- - Utils/Json: normalize_json [whitebox_tempest_plugin/utils.py], on JSON whose numbers are integers.
--   What it makes of the dicts of a list is computed beside the list, and counts behind the sort.
-- - Waiters: the three polling loops [whitebox_tempest_plugin/common/waiters.py]. A loop runs on fuel,
--   one round for each second of its timeout and one or two more: a round sleeps at least a second,
--   so that the clock passes the timeout before the fuel is used up, and the theorems on the ends of
--   the waits exclude it. A zero interval is the one case that they leave out.
-- - Clients/Ssh, Clients/ServiceManager: SSHClient, the clients of libvirt and of the logs, and the
--   three service managers [whitebox_tempest_plugin/services/clients.py]. A manager is a record with
--   its class as a data type, as each class starts and stops the service in its own way. A context
--   manager is a function of the body that runs in it.
-- - Numa/Pins, Numa/Helper: the CPUs that a server's XML pins its threads to
--   [whitebox_tempest_plugin/api/compute/numa_helper.py], and get_server_xml
--   [whitebox_tempest_plugin/api/compute/base.py]. The loops over the pins are apart from the requests.
-- - Numa/Siblings: get_siblings_list of the tests of CPU pinning
--   [whitebox_tempest_plugin/api/compute/test_cpu_pinning.py].
-- - Clients/NumaClient, Clients/SysFs, Clients/Database: NUMAClient, SysFSClient and DatabaseClient
--   [whitebox_tempest_plugin/services/clients.py]. The loops over the lines of numactl and grep are apart
--   from the commands, and the driver of the database is a parameter with its documented laws.
-- - Base/Computes, Base/Resources, Base/Servers, Base/Devices: the helpers of the base test class
--   [whitebox_tempest_plugin/api/compute/base.py]: options on all computes; what a test creates, with
--   the clean-ups that it registers; migrations and the shutdown of a domain; block devices, interfaces
--   and the binding of ports. Base/Api is a parameter with the calls of the OpenStack clients. The
--   state of a test is the record Case: its clean-ups, the last registered first, and the cloud. The
--   wait for a shutdown does not sleep, so the number of its rounds is not bounded by its timeout; its
--   fuel is an argument, and any fuel beyond the polls that take the clock past the timeout is enough.
-- - Base/Resources/Release: a test as a relation of steps between cases. IsApi says what the calls do to
--   the resources that exist, and Owns relates them to the clean-ups that are registered. A server or a
--   volume is gone when the wait behind its deletion returns. Flavors are not among the resources, since
--   Tempest's create_flavor removes them behind the last test of a class; a client that a helper takes
--   as an argument is its default, the one of the administrator.
-- - Tests: a host with a configuration file, a clock and an API, which has the properties that the
--   theorems rely on, and the theorems at concrete inputs.
-- How they interact: a manager sends commands by SSHClient, whose constructor reads the nodes file by
-- Utils; the Nova and libvirt managers wait by Waiters; the CPU sets of a manager are parsed by
-- Hardware/CpuSpec. ServiceManager/File states what crudini does to the file that a manager edits,
-- ServiceManager/Options proves what config_options does from it, and ServiceManager/Scripts compares
-- code that edits the file at a host with the same code on an abstract file.
--
-- Not modelled: logging, and the texts of messages beyond the value that they name; Unicode white
-- space and digits beyond ASCII in int(), strip() and splitlines(); the XML parsing of the standard
-- library; floats in JSON; QEMUImgClient.info, which parses the output of a command by json.loads;
-- load_tests of the plugin; and the test cases, but for that parser, which send requests to a running cloud and assert.
pub mod Prelude
pub mod Python
pub mod Exceptions
pub mod Config
pub mod World
pub mod Hardware
pub mod Utils
pub mod Waiters
pub mod Clients
pub mod Numa
pub mod Base
pub mod Plugin
mod Tests
