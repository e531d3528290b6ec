-- ===== src/Lib.antt =====
-- The controllers of rufio, which run jobs of actions on machines through their baseboard
-- management controllers (BMCs): the API objects, the three reconcilers, and what they share.
--
-- Parts and files
--   Prelude and Prelude/: the names that all files share. Texts are lists of code points, with the
--     tests of the Go package strings that the code uses (Text, Text/Occurs); decimal numerals as
--     `%d` and strconv.Itoa write them (Decimal, Decimal/RoundTrip); signed integers (Int).
--   Api and Api/: api/v1alpha1. Action.antt is action.go and the type Action of task.go,
--     ProviderOpts.antt is provider_opts.go with Connection and ProviderOptions of machine.go, and
--     Machine.antt, Job.antt and Task.antt are the files of these names. Conditions.antt holds the
--     loops that SetCondition and HasCondition share, Meta.antt the fields of the Kubernetes types
--     that are read or written. The children Laws and Names hold the proofs.
--     Stored.antt, Memory.antt and DeepCopy.antt, with their children, are the same objects in a
--     memory with addresses: zz_generated.deepcopy.go, and SetCondition on a slice.
--   Controller and Controller/: the package controller. Kube.antt is kube.go, Client.antt is
--     client.go, Task.antt, Job.antt and Machine.antt are the reconcilers of task.go, job.go and
--     machine.go, and Login.antt is what doReconcile of task.go and of machine.go begin with, and
--     retrieveHMACSecrets of machine.go. Error.antt and Bmc.antt hold Go errors and the types of
--     bmclib that are filled in. The children are named for what they prove.
--   System and System/: a Job and its Tasks over many reconciliations, in a cluster that behaves as
--     documented. System.antt says what a job promises and what such a cluster is; Refines relates
--     reconcile of Controller/Job.antt to it, Reach has the moves of all parties in any interleaving,
--     and Rounds runs a job to its end. Tasks and Tasks/ put reconcile of Controller/Task.antt in the
--     same cluster: Moves is what it may do to a task, Both the two reconcilers in any interleaving,
--     Obedient, Advances, Ends and Drives what they do with a machine that does as it is told, and
--     Begun, Begins and Once how often the action of a task is run. Machines is what reconcile of
--     Controller/Machine.antt comes to, and Logins the login that it shares with that of Tasks.
--   Startup.antt and Startup/: main.go, and SetupWithManager of the three reconcilers.
--   Examples and Examples/: the theorems at concrete inputs, in a cluster that is written out.
--
-- How the parts interact
--   The reconciler of Jobs reads a Job and its Machine, lists the Tasks that the Job owns, and
--   creates the next Task when all are completed; the reconciler of Tasks opens a bmclib client for
--   the connection of a Task, runs its action where no start is recorded, and otherwise reads the
--   power state until the action is done or ten minutes are over; the reconciler of Machines polls
--   the power state of a Machine. They share no memory: each reads its object, keeps a copy of it,
--   changes the object and patches the status against the copy. main registers the three with a
--   manager, which calls them.
--
-- How Go is modelled
--   A function that calls out is a function of a state, which holds the world and the calls that
--   were made, newest first (Controller/Exec.antt). Its outcome is a value or a run-time panic;
--   `defer` is `finally`, which runs its second part after either. What the package calls and does
--   not implement is a field of the record Env (Controller/Env.antt): the Kubernetes client, the
--   clock, the event recorder, bmclib, safecast and mergo. A call may change the world in any way and
--   return any value or error, so that a theorem about Env covers stale reads, failures and changes
--   by other controllers between two calls; what a theorem needs of such a call is a hypothesis.
--   In Controller/ and System/ objects are values: DeepCopy is the object as it was read, and a
--   change of `task` is a new task. Whether that is sound is the subject of Api/DeepCopy and its
--   children: a pointer is an address, a slice has an array that it may share, `append` writes in
--   place where there is room, and DeepCopyInto allocates. The objects themselves are not in that
--   memory, only what they lead to; Kubernetes copies their metadata and times (the record
--   MetaCopies). DeepCopy.New is the functions DeepCopy of what objects hold.
--   A nil pointer is `none`, a nil slice the empty list, a map a list of entries in the order in
--   which a loop goes through it. Each function of the package has a definition of its name in the
--   spelling of this library; a long one is cut where its errors return, and the pieces stand in
--   front of it. Times and durations are in nanoseconds; time.Since stops at the ends of int64.
--   The numerals of Prelude/Decimal.antt run on fuel n + 1 for the number n, which is more than the
--   number of its digits.
--
--   A lawful cluster (System.IsLawful) reads what was written, creates a task whose name is new,
--   patches a job's status, and lists a job's tasks in any order. Between two reconciliations of
--   the job, tasks get new statuses and other objects change; a job is not deleted, nor its actions
--   edited. A patch holds the difference between an object and the base it is made against, so the
--   laws say what a patch writes only where its base is the object that is stored: that a
--   reconciler patches against what it read is part of what is proved. In IsTaskLawful of
--   System/Tasks.antt a task of the job is found by its name, and a patch of its status against the
--   stored task is written, or changes nothing. IsKept of System/Tasks/Begun.antt is a cluster in
--   which every such patch is written. In an obedient cluster, IsObedient of
--   System/Tasks/Obedient.antt, the secrets hold credentials, patches and the calls of the machine
--   succeed, and when the machine is polled it is in the state that the last task asks for, within
--   ten minutes of the task's start.
--
-- Not modelled
--   DeepCopy and DeepCopyObject of Job, Task and Machine, and the deep copies of their lists, since
--   the memory does not hold objects or arrays of them.
--   Logging and the metadata of bmclib that is only logged. The parsing of flags in main.go; what
--   controller-runtime does with a registration. groupversion_info.go and the functions init,
--   which only register types. The context of a call, but for the time limit on opening a client, is
--   left out.
pub mod Prelude
pub mod Api
pub mod Controller
pub mod System
pub mod Startup
pub mod Examples
