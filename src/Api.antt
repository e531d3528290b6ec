-- ===== src/Api.antt =====
-- The API types of api/v1alpha1, one module for each of its files, with the parts of the
-- Kubernetes metadata that they embed (Meta) and the list of conditions that Job, Task and Machine
-- each keep in their status (Conditions); and the same objects in a memory with addresses (Stored,
-- Memory, DeepCopy).
pub mod Meta
pub mod Conditions
pub mod Action
pub mod ProviderOpts
pub mod Machine
pub mod Job
pub mod Task
pub mod Stored
pub mod Memory
pub mod DeepCopy
