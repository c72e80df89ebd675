-- ===== src/Init/Tests.antt =====
-- Runs of the model of android2.1_init on concrete inputs.
mod Given
mod Texts
mod Props
mod Lists
mod Lives
mod Runs
mod Nodes
mod Files
mod Booted
