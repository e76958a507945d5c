-- ===== src/Tests.antt =====
-- Tests on concrete inputs, and the theorems at inputs that meet their hypotheses.
mod NetTests
mod ThreadTests
mod JobTests
mod WorldTests
mod CrowdTests
mod ItemTests
mod MemoryTests
mod ActorTests
mod GameTests
