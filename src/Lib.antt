-- ===== src/Lib.antt =====
-- Crazy Snail is a Redis client for Lua on libuv. A client holds two streams to one server, one for
-- commands and one for subscriptions.
--
-- The parts, and the files that model them:
--   src/cb.h, src/cb.c: callbacks (Memory, Callback), the lists that queue them (Queue) and the trees
--     that lead from a channel's name or a timer's period to a list (Tree). A callback is shared by
--     the lists of all its channels and counts the cells that hold it.
--     Dump prints the trees and the lists.
--   src/crazysnail.c, src/crazysnail.h: the free lists of requests and buffers (Pools), the
--     conversion of replies (Reply) and the client (Client). The client keeps a queue of callbacks for
--     the commands on the way and three trees for channels, patterns and timers.
--       Client/Connection: lua_client_new, lua_client_on, lua_client_connect, on_connect,
--         lua_client_disconnect, on_disconnect, lua_client_exit.
--       Client/Command, Client/Subscribe: lua_client_command, lua_client_subscribe.
--       Client/Read: on_write, on_read.
--       Client/Dispatch: get_and_call_sub_cb, on_timer.
--   Text has the C strings with the functions of string.h, ctype.h and stdlib.h that the code calls.
--
-- The other files hold the proofs, beside what they are about: Memory/Returns total correctness of
-- a command; Queue/Cells the cells that a list stands for, and Queue/Push, Shift, Release and
-- Destroy its operations; Tree/Shape, Keys, Names, Lookup, Timers, Periods and Destroy the trees,
-- Tree/Refill, Relisted, Orders and Growth a tree whose lists grow; Dump/Lines and Order what is
-- printed; Text/Numbers and Width numbers and their texts; Reply/Tables and Known the replies;
-- Pools/Requests the requests; Client/Opening, Established, Closing and Exit the connection;
-- Client/Answers, Replies, Reading and Failures the queue of commands; Client/Filing, Placing,
-- Building, Filed, Underway, Step, Subscribed, Names, Timers, Periods, Parts, Start, Subscription
-- and Subscribing what a subscription does to the trees, in the order in which they rest on each
-- other; Client/Healthy, Commands, Kinds, Registered, Written, Delivered, Fired and Session a
-- client whose lists, trees and counts are right, through its commands and the messages and timers
-- after them, up to its exit; Client/Waiting and Pipeline commands and the replies to them;
-- Client/Calls, Visits and Confirm the notifications and timers, and Client/Keys the keys. Tests
-- applies the theorems.
--
-- State: Memory maps addresses to callbacks and to list cells; `next` is the next address that
-- `malloc` gives out, `oom` says which allocations fail, and `junk` what an unwritten field reads. A
-- command of the memory ends normally, in a fault (undefined behaviour), in a failed assertion or
-- without fuel. Names, channels and tree nodes are owned by one pointer each, so they are values; the
-- place of a node is the way from the root. The functions of the client run on an Env: the client
-- itself, the memory, and a log of what was asked of libuv and Lua.
--
-- Correspondence: functions have the names of the sources, but for `search`, which is search_key. A
-- pointer argument that is written through is a result, after the status. A part of a function, such
-- as a loop, has a name of its own, and its comment says what it is.
--
-- Bounds and fuel: destroy_list and dump_list run on as many rounds as there were allocations,
-- which is more than any list has. The loops that call Lua functions (timer_loop, message_loop,
-- confirm_loop) and the loop over the replies (read_loop) run on fuel that the caller gives, since
-- a Lua function may lengthen a list and the reader says when it has no more. `attach` and the
-- lengths are unbounded; `strtol`, the number of a timer and what its event passes to Lua have their
-- width of 64 bits.
--
-- Parameters: the reader of the Redis protocol and the formatter of commands (src/hiredis-light.c),
-- libuv's results and error texts, and Lua's number conversion and functions are the fields of Host
-- or arguments of the handlers.
--
-- Not modelled: src/hiredis-light.c and src/sds.c, which are copies of other projects, stackDump, which
-- prints the Lua stack and is called from a comment alone, and luaopen_crazysnail, which registers the
-- functions. What dump_tree and dump_list print is a list of lines, each with the values printed.
mod Common
pub mod Text
pub mod Memory
pub mod Callback
pub mod Queue
pub mod Pools
pub mod Tree
pub mod Dump
pub mod Reply
pub mod Client
mod Tests
