-- ===== src/Tests.antt =====
-- Tests of the definitions on small inputs, and each theorem applied at such an input.
mod Sample
mod Manifests
mod Loop
mod Running
mod Files
mod Children
mod Printing
mod Stopping
