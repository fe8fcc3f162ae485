-- ===== src/Kube.antt =====
-- The Kubernetes side of the operator: the API objects that it reads and writes, the client through
-- which it does so, and the library functions that it calls. None of this code is the repository's.
pub mod Result
pub mod Objects
pub mod Client
pub mod Makes
pub mod Conditions
pub mod Settles
pub mod Succeeds
pub mod Present
pub mod Bounded
