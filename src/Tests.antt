-- ===== src/Tests.antt =====
-- Runs of the models at concrete inputs.
mod Queues
mod Breakers
mod Sends
mod Series
mod Responses
mod Models
mod Polls
mod Proxying
mod Numbers
mod Configs
mod Pushing
mod Gpus
mod Metering
mod Bodies
