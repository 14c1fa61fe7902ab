-- ===== src/Lib.antt =====
-- Verification of skeys, a manager of SSH keys, agents, hosts and connections: its Go core library,
-- skeys-core. The daemon and the desktop application call this library; they are not modelled.
--
-- Each component is a state with one function per operation, translated from the method of that
-- name. A method that holds a mutex from start to end is one step; a method that gives the mutex up
-- is one step per part. What the operating system, the network, golang.org/x/crypto and
-- encoding/json answer is an argument: `Crypto`, `World`, `Codec` and the several `Disk`s. Log
-- calls are left out, errors are constructors without their texts, and Go maps are association
-- lists without a second entry for a key, so a `range` visits one of the orders that Go may choose.
-- Texts are lists of the code points of valid UTF-8; what is told of a service that has failed is a
-- list of bytes, since the program may cut it inside of a code point.
--
--   Agent          skeys-core/agent/server.go: the agent with its keys, its lock and the expiry of
--                  keys; not the socket it listens on
--   AgentClient    skeys-core/agent/agent.go: the service that calls that agent over its socket,
--                  and watcher.go: the subscribers to its changes
--   Storage        skeys-core/storage/storage.go: metadata of keys and servers, in memory and in a file
--   Broadcast      skeys-core/broadcast/broadcaster.go: one producer with many subscribers
--   Pool           skeys-core/remote/connection.go: the pool of SSH connections; not the traffic on a
--                  connection
--   HostKeys       skeys-core/remote/hostkey.go and TestConnection of connection.go: the key of a host
--                  against known_hosts before a connection
--   SshConfig      skeys-core/sshconfig/manager.go: the managed block in ~/.ssh/config
--   AuthorizedKeys skeys-core/hosts/authorized_keys.go: the lines of authorized_keys
--   KnownHosts     skeys-core/hosts/known_hosts.go: the entries of known_hosts and the commands on it
--   ClientConfig   skeys-core/config/client.go: the entries of ~/.ssh/config and its global directives
--   Discovery      skeys-core/config/discovery.go: where the configurations of ssh and sshd are
--   ServerConfig   skeys-core/config/server.go: the directives of sshd_config and their update
--   Executor       skeys-core/executor/executor.go: the commands that may be run, with privileges and
--                  without
--   Keys           skeys-core/keys/service.go and keygen.go: the pairs of key files, with Keys/Base64 and
--                  Keys/Passphrase for the test whether a private key is encrypted
--   System         skeys-core/system/service.go and network.go: the service of the SSH server, its actions
--                  and its status, the port it listens on and the firewall
--   Version        skeys-core/update/manager.go: the comparison of versions
--   Update         the same file: the state of the updater and the check for updates
--   Download       the same file: the download of an update and the check of its digest
--   Install        the same file: the extraction of an update, to the installation, its backup or
--                  elsewhere, its installation and the rollback; links between files are left out
--
-- Prelude, Map, Text, Ssh, Files and Host hold what these share: results, equality tests, Go maps,
-- the functions of the Go packages strings, strconv and bufio that the program uses, the
-- cryptography that it is given, what a write does to a file, and what a machine answers to those
-- who look at it. Times are nanoseconds of the monotonic clock and counters are natural numbers;
-- where Go has a bound, it is a hypothesis or a test of the model. The print of a number has one
-- unit of fuel more than the number, which `atoi-itoa` shows to be enough; every other loop is
-- recursion on the list that it runs over.
--
-- Not modelled: the settings of the updater, and the watchers of configurations, keys and services.
pub mod Prelude
pub mod Map
pub mod Text
pub mod Ssh
pub mod Agent
pub mod AgentClient
pub mod Broadcast
pub mod Storage
pub mod System
pub mod Pool
pub mod Files
pub mod SshConfig
pub mod AuthorizedKeys
pub mod KnownHosts
pub mod ServerConfig
pub mod Executor
pub mod ClientConfig
pub mod Keys
pub mod Host
pub mod HostKeys
pub mod Discovery
pub mod Version
pub mod Update
pub mod Download
pub mod Install
