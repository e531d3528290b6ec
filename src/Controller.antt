-- ===== src/Controller.antt =====
-- The package controller. Error, Bmc, Env and Exec hold what its files share: Go errors, the types
-- of bmclib, what the package calls and does not implement, and stateful calls. Kube, Client,
-- Machine, Job and Task are its files controller/{kube,client,machine,job,task}.go; Login is what
-- doReconcile of the Task and of the Machine controller begin with.
pub mod Error
pub mod Bmc
pub mod Env
pub mod Exec
pub mod Kube
pub mod Client
pub mod Login
pub mod Job
pub mod Task
pub mod Machine
