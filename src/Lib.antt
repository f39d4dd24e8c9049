-- ===== src/Lib.antt =====
-- Host libraries for storage, in Go: models of packages that carry their own logic, and what
-- is proved of them.
--
-- Parts. Each file, with the directory of its name, models one package:
-- - Chain: chain/chain.go. A chain executes Runners in order, with retries, and rolls them back in
--   reverse order when one fails. Runner, Chain, setup, run_with_retry, rollback_with_retry and execute
--   are the type and functions of those names; run_commands and undo are the two loops of Execute. A
--   Runner is a pair of functions on a world W that is a parameter, and time.Sleep is a function on W.
-- - Concurrent: concurrent/concurrent.go. MapMutex gives a lock to each key. lock, acquire and unlock
--   are the sections of Lock and Unlock that the big lock makes atomic; Step and Reach are the
--   interleavings of any number of sessions.
-- - Storage: storageprovider/fake/fake_storage_provider.go. The provider in memory that the tests of
--   the repository's clients stand on, one function per method. A map is shared by all volumes that
--   hold it, which MapRef expresses. Requests has the calls as data, with the invariant of the provider and
--   the abstract provider that it implements (Tables). Model: the structs of model/types.go that it stores.
-- - MpathConfig: mpathconfig/configresource.go. multipath.conf: Syntax has the lines and the regular
--   expressions, Tree the sections on a heap and their search, Parser ParseConfig, Printer PrintConf.
-- - Cerrors: chapi2/cerrors/cerrors.go. new_chapi_error is NewChapiError on a heap of errors, since it
--   changes and returns an object that it is given by pointer; code_string is String.
-- - Multipath: linux/multipath.go. The paths of a device, as multipathd shows them: multipathd_show_cmd
--   and multipath_get_paths_of_device are the functions of those names, retry_rounds is the loop of
--   retryGetPathOfDevice. Maps has the removal of a map and, from linux/device.go, the lookup of its
--   name. Running a command or reading a file is a function on the state of the host, a parameter.
-- - Dockervol: docker/dockervol/dockervol.go. The client of a Docker volume plugin: create_or_update,
--   mounter, mount, unmount and delete are the methods of those names. The plugin's answer to a request
--   is a function on the state, a parameter, as are fmt.Errorf and time.Sleep.
-- - Stringformat: stringformat/stringformat.go and conversion/conversion.go. fixed_length_string is
--   FixedLengthString, and the convert functions are those of package conversion.
-- - Connectivity: connectivity/client.go. do_json is DoJSON and do_with_retry its attempts. net/http and
--   encoding/json are the fields of Net and the decoders of a Request; the caller's variables behind
--   Response and ResponseError are its Targets.
-- - Csp: storageprovider/csp/container_storage_provider.go, the client of a container storage provider,
--   over Connectivity. Session has NewContainerStorageProvider (first_login behind get_csp_client), login
--   and invoke, and the files Volumes, Groups, Snapshots and Clone one function per operation.
-- - Credentials: storageprovider/storage_provider.go. create_credentials is CreateCredentials on the
--   secrets in the order in which Go reads the map.
-- - Handler: dockerplugin/handler. Networks has filterHostNetworks of mount.go, on the slice that it
--   changes in place, Attached the comparison of the sessions of a volume with the initiators of the host,
--   Mounting the mount and the cleanup behind it, Creating the making of a file system behind a new volume
--   (create.go), Unmounting and Waiting the handlers of unmount.go and remove.go and the loops that poll. Chapi and Provider are the operations of the CHAPI client and of the container provider.
-- - Mounts: linux/mount.go. update_db_configuration is updateDbConfiguration, whose regular expression is
--   prune_paths, and are_fs_options_compatible is AreFsOptionsCompatible; os/user and the file of
--   updatedb are parameters.
-- - Filesystem: linux/mount.go, linux/bmount.go and linux/partition.go on a host whose system calls are the
--   record Host. Partitions, Formatting, Mounting, Remounting and Unmounting have the functions of those
--   parts.
-- - Iscsi: linux/iscsi.go on a host that is a record again. Targets has the lists of targets and sessions,
--   Discovery PerformDiscovery, Login addTarget and loginToTarget, Ifaces GetIfaces, Volumes loginToVolume,
--   Rescan RescanIscsi, and Handling HandleIscsiDiscovery.
-- - Jconfig: jconfig/jconfig.go. Json is what encoding/json makes of a file, and each lookup of a Config is a
--   function of its name. Go has what the lookups use of fmt, reflect and float64; Numbers has strconv.
-- - Plugin: dockerplugin/plugin/plugin.go with plugin_linux.go, plugin_darwin.go and plugin_windows.go beside
--   it: get_updated_opts_from_config and the initialization of the two delays. Merging has what one step
--   adds to the map of options.
-- - Tunelinux: tunelinux/multipath.go, from GetMultipathDevices on. get_multipath_devices,
--   unmount_multipath_device and remove_multipath_device are the functions of those names; commands,
--   /proc/mounts and encoding/json are parameters.
-- - Prelude: shared names, lists and integers over the native numbers, dictionaries and texts.
-- Csp calls Connectivity and takes its Credentials; it, Storage and Handler handle the structs of Model.
-- Plugin looks its sections up with Jconfig. Tunelinux takes the vendors that it knows from linux/multipath.go. The other packages do not call one
-- another.
--
-- Conventions. A definition has the name of the Go function in snake case. Logging is left out. Errors
-- are values, and a nil dereference or a write to a nil map is an outcome of its own, panics. Go's int
-- is an integer without bound where it only counts waiting callers or attempts; the number of retries of a
-- chain, which the code adds one to, and what is parsed from a text have the bounds of 64 bits. Strings are native strings where they are only compared, and lists of character codes where
-- they are taken apart; multipath.conf is taken to be ASCII.
--
-- Bounds and fuel. The retries of Chain, Multipath, Dockervol and Connectivity recur on the number of
-- rounds, which the code itself gives. print_section recurs on the depth of the tree, since the heap
-- could hold a cycle; AddSection puts a section below the root or below a child of the root, so a fuel
-- of 2 prints what ParseConfig builds. invoke of Csp calls itself after each status 401, with no bound,
-- so it takes fuel and running out of it is an outcome, endless. The loops of Handler recur on a list of the events that
-- a select finds, and waiting is an outcome of theirs.
--
-- Not modelled: packages that only do I/O (logger, dbservice, sgio, windows, cert), and
-- the clients of Docker, of etcd and of the operating system, whose decisions need their answers.
pub mod Prelude
pub mod Model
pub mod Chain
pub mod Concurrent
pub mod Storage
pub mod MpathConfig
pub mod Cerrors
pub mod Multipath
pub mod Dockervol
pub mod Stringformat
pub mod Connectivity
pub mod Csp
pub mod Credentials
pub mod Handler
pub mod Mounts
pub mod Tunelinux
pub mod Filesystem
pub mod Iscsi
pub mod Jconfig
pub mod Plugin
