-- ===== src/Tests.antt =====
-- Runs of the model at concrete inputs, over a small platform that meets the laws.
mod Toy
mod Manifests
mod Signing
mod Issuing
mod Choosing
mod Nodes
mod Starting
mod Accesses
mod Results
mod Serving
mod Artifacts
mod Keys
