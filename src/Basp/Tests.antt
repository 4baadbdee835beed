-- ===== src/Basp/Tests.antt =====
-- Runs of the BASP modules on concrete inputs, and their theorems at inputs that meet the hypotheses.
mod HeaderTests
mod QueueTests
mod ApplicationTests
