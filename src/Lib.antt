-- ===== src/Lib.antt =====
-- gar-virt runs the tasks of a Gitea forge in virtual machines, one fresh machine for each task. This
-- library models the parts of it that carry its own logic, as executable definitions, and proves
-- what they do.
--
-- The parts and how they interact. For each template of the configuration the app
-- (modules/app/src/core.cpp, `TemplateState`) has a machine pool (modules/virt/src/machine_pool.cpp)
-- and some runner threads. The pool keeps machines ready: its control thread submits tasks to a
-- thread pool (modules/utility/src/concurrency/thread_pool_executor.cpp), whose workers spawn machines
-- by `spawn_machine` of the app. A runner thread acquires a machine, registers a runner with
-- the forge (modules/gitea/src/runner.cpp), waits for a task, executes it in the machine and releases
-- the machine. All of them use the helpers of modules/utility.
--
-- Which file models which part; a function has the name that it has in the source.
--   Prelude (and below)  names of the standard library, Boolean tests, lists over native numbers,
--                        results, machine words and bits. `size_t` has 64 bits.
--   Pool                 machine_pool.cpp: the fields behind the mutex are the record `Pool`, each section
--                        that runs under the mutex is a function; Pool.World has the threads, which
--                        take turns, and the tasks and workers of the thread pool. Pool.Delivery has the
--                        calls of the callback for the stats.
--   ThreadPool           thread_pool_executor.cpp, in the same way: `Executor` and ThreadPool.World.
--   App                  core.cpp and runner.cpp: a function that talks to the pool, the forge, a machine
--                        or the clock is a program, and an environment answers its requests.
--                        App.Runner is runner.cpp, App.Task the execution of a task with
--                        modules/virt/src/machine.cpp, App.Loop the runner loop, App.Network the
--                        spawning of a machine with modules/virt/src/factory.cpp; App.Protocol says
--                        which requests are allowed when.
--   Programs             what App and Libvirt share: programs that make requests, environments that answer
--                        them, and what holds of a program whatever the answers.
--   Libvirt              modules/virt/src/libvirt: requests to libvirt, to the guest agent behind it and to
--                        the memory that threads share. Libvirt.EventLoop, Connection, Guest and
--                        Hypervisor are the classes of libvirt.cpp (Guest is `write_file` and
--                        `shell_exec` of `MachineImpl`, Hypervisor.Events the handlers of events,
--                        EventLoop.Sharing the pointers to the loop),
--                        Libvirt.Backend is backend.cpp, Libvirt.Json the values of the agent's
--                        protocol.
--   Config               modules/app/src/config.cpp: the token and the log level; Config.Loading is the walk
--                        over the YAML tree of a configuration file.
--   Http                 modules/utility/src/http.cpp and the request middlewares of the clients of
--                        modules/gitea/src.
--   Runners              the moves and the destructor of `Runner`, runner.cpp.
--   Streams              modules/utility/include/utility/io/stream.hpp: reading of a line and of a whole
--                        stream; Streams.StdInput is `StdInputStream`.
--   Arch                 modules/virt/src/arch.cpp.
--   Base64               modules/utility/include/utility/encoding/base64.hpp.
--   Numeric              modules/utility/include/utility/algorithm.hpp.
--   Text                 modules/utility/src/string.cpp.
-- The other files below these hold proofs, and files named Examples runs on concrete inputs.
--
-- Bounds and fuel. Unsigned words wrap round at 2^64, which is written out. Loops over strings and
-- words are structural. `string_replace` runs on fuel, for which the length of the input and one more
-- is enough. The loops of the app that wait for something run on fuel since nothing in the program
-- bounds them, and so does the one that waits for a command in a guest; a run that has used it up says
-- so. The wait for the guest agent has enough fuel with one round more than its time-out has fifths of a
-- second.
--
-- Not modelled: the functions that forward to the shared library of libvirt, the wait functions of
-- `MachineImpl`, which nothing calls, and the other stream classes, which forward to standard
-- streams; calls of the operating system, logging, the entry point and generated code because they
-- have no logic of their own. Code of other libraries (`std::toupper`, `std::filesystem`, the JSON
-- library, YAML, cURL, UUIDs, the URI parser) is a parameter, libvirt a part of the environment.
pub mod Prelude
pub mod Programs
pub mod Numeric
pub mod Text
pub mod Base64
pub mod ThreadPool
pub mod Pool
pub mod Libvirt
pub mod Streams
pub mod Runners
pub mod Http
pub mod Arch
pub mod Config
pub mod App
