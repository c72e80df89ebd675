-- ===== src/Ril/Tests.antt =====
-- Runs of the model of android2.1_init/hard_ril/reference-ril on concrete inputs.
mod Tokens
mod Modem
mod Buffer
mod Clock
mod Radio
