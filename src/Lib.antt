-- ===== src/Lib.antt =====
-- A ticket sale behind a waiting room: a Go program with an HTTP interface, a worker, PostgreSQL
-- and Redis, and a service that runs load tests against it.
--
-- A user registers and gets a user token, joins the waiting room of a sale, and polls for the
-- place in line. The worker moves the admission window of each sale forward. A poll of a user
-- whose place the window has reached hands out an admission token, with which the user holds
-- seats and checks out. Holds that expire are released by the worker. The load tests pass through
-- a directory of jobs, which the API writes and the runner reads, and a directory of results,
-- which both read.
--
-- The files and the code that they model:
--   Storage          the tables of migrations/001_init.sql that the services use (`Db`), the two
--                    keys of a sale in internal/redisclient/redis.go (`Redis`), and both together
--                    (`Store`)
--   Auth             internal/auth/auth.go and admission.go: issuing and parsing of the two kinds
--                    of token, the two middlewares, ConsumeAdmission. Auth.Tokens has the
--                    theorems
--   WaitingRoom      internal/waitingroom/service.go: Join, Status and AdvanceAdmission. Entries
--                    has the invariant of the queue, Steps the branches of Join, Join and Polls
--                    the single calls, History the runs of many calls, Line the queue as an
--                    abstract line of users. WaitingRoom.Interleaved has Join call by call, with
--                    any number of requests at once; its children Alone, Calls, Places, Capacity
--                    and Race have the theorems
--   Inventory        internal/inventory/service.go: Hold and ReleaseExpired; Inventory.Layout has
--                    CreateSeats, Layout.Rows what it lays out, and Available has ListAvailable.
--                    Seats counts held seats, Untouched has the tables that a release leaves
--                    alone, Claims has the invariant of seats and holds, Holding when a hold
--                    succeeds, Spared which holds the rounds leave, Repeats the repetition of a
--                    hold, Release one transaction of the release,
--                    Expiry a whole round and Rounds many. Inventory.Interleaved has Hold call by
--                    call and ReleaseExpired row by row, with any number of requests, workers and
--                    checkouts at once; its children Exclusive, Stale and Active have the theorems
--   Orders           internal/orders/service.go: Checkout and Transfer, and Stats in
--                    Orders.Stats. Filling has the statements up to the DELETE, Checkout the
--                    single calls, History the runs of holds, checkouts and releases
--   Lottery          internal/lottery/service.go, which no program calls: the registration, the
--                    draw, the access codes. Calls has the statements of the calls in any order,
--                    Codes the use of codes, Draws the draw
--   Antibot          internal/antibot/limiter.go: Allow, AllowJoin and AllowCheckout
--   Worker           cmd/worker/main.go: runAdmission and one tick. Drip has theorems on the windows
--   HttpApi          internal/httpapi/handlers.go: queueJoin, queueStatus, queueStream,
--                    createHold, checkout, getOrder, the two checks of keys, and the routes with
--                    their middleware. HttpApi.Accounts has register and login, HttpApi.Admin
--                    createEvent and createSale, and HttpApi.Demo the demo handlers of
--                    loadtest_handlers.go and simulation_handlers.go, with SetupDemoWithParams of
--                    internal/simulation/engine.go, which calls the admin routes. HttpApi.Shows
--                    has the handlers that only show something
--   Simulation       internal/simulation/engine.go: the configuration, the loops that it starts,
--                    and what a round of each loop sends and records. Rounds and Counts have
--                    theorems on the statistics, Workers on the loops
--   Loadtest         internal/loadtest: the store of jobs and results and Service.Submit;
--                    Requests has the data, Limits.Apply and Limits.CanAccept, Listing the lists
--                    of results. Limits, Runs and Files have theorems
--   AssertQueue      cmd/assert-queue/main.go: the count of inversions. Sorting has sorted lists,
--                    Fairness what the count means; WaitingRoom.Fairness joins it with the
--                    waiting room
--   Dashboard        internal/dashboard/stats.go: Live, and StatsSnapshot of the engine; Counts
--                    has theorems
--   Config           internal/config/config.go: Load with intEnv, boolEnv and getEnv, and
--                    DefaultDirs of internal/loadtest/store.go. Numbers and Switches have
--                    theorems
--   Startup          cmd/api/main.go up to the handlers, with Connect of internal/db/db.go and of
--                    internal/redisclient/redis.go. Startup.Programs has the starts and the loops
--                    of cmd/worker, cmd/assert-queue and cmd/loadtest-runner. Defaults,
--                    Unreadable, Checking and Admitting have theorems
--   LoadtestRunner   cmd/loadtest-runner/main.go: runJob and one tick of the loop
-- Each module named Examples applies the theorems at concrete inputs. Common has the shared
-- names, and `sort_by`, which stands for `sort.Slice` and keeps the order of items that compare
-- as equal.
--
-- An operation is a function from the state to the new state and a result, in the order of the
-- source's statements. What can fail outside the program is an argument: a record `Faults` has a
-- field for each call to PostgreSQL or Redis, and every error path is followed. Operations run
-- one after the other, but for the joins of WaitingRoom.Interleaved and the holds and releases of
-- Inventory.Interleaved, where each call to PostgreSQL or Redis outside a transaction is a step
-- of its own, a transaction is one step, and the steps of many requests and workers follow each
-- other in any order; `run_alone` relates them to `join` and `hold`. A transaction that fails
-- leaves the database as it was, and so does a COMMIT after a failed statement, which is what
-- PostgreSQL documents. The two commands of a Redis pipeline are one step. Lottery.Calls has the
-- statements of the lottery's calls in any order, and each read of the dashboard's Live has a store of
-- its own.
--
-- Ids, texts and prices are numbers, but the texts of the environment are lists of codes; times
-- are numbers of nanoseconds, and a request reads the clock of the program (`now`) and that of
-- the database (`db_now`) once each. Counters are natural numbers without a bound: the 64 bits of
-- Redis and Go are not reached by counting. The column `section` of the seats is left out, and so
-- are the texts of messages. What golang-jwt does is the parameter `Jwt` with two laws: it parses
-- what it has signed with the same secret until the token expires, and it rounds times down. What
-- bcrypt does is the parameter `Bcrypt` with one law: a hash compares equal to the password that
-- it was made from. The server that a round of the simulation meets is a function from requests
-- to answers. The examples fill them with stand-ins. UUIDs are arguments. Integers of requests,
-- which may be negative, are `ℤ`. A file of a directory is an entry of a list by its id, and it
-- is replaced as a whole, as a rename does.
--
-- The loops go over lists, but for four: `queueStream` polls five times, as in the source,
-- `CreateSeats` counts the rows and the seats of a row down from the numbers of its source,
-- `run_alone` takes as many steps as it is given, of which six are enough for a join and three
-- for a hold, and the digits of a number are printed in as many rounds as the number, which are
-- enough. The numbers of the configuration are read with the bounds of 64 bits, and durations and
-- connection counts wrap around at 64 and 32 bits. The rates of the dashboard are exact
-- fractions.
--
-- Not modelled: the Prometheus counters, which the program adds to and never reads, the static
-- files, listening and shutdown. The goroutines of the simulation are modelled round by round,
-- not call by call.
mod Common
pub mod Storage
pub mod Auth
pub mod WaitingRoom
pub mod Inventory
pub mod Orders
pub mod Antibot
pub mod Worker
pub mod HttpApi
pub mod Loadtest
pub mod LoadtestRunner
pub mod AssertQueue
pub mod Simulation
pub mod Lottery
pub mod Dashboard
pub mod Config
pub mod Startup
