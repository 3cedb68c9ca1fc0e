-- ===== src/Tests.antt =====
-- Runs of the modelled code on concrete inputs.
mod Rtsps
mod Limelights
mod Webrtcs
mod Moonlights
mod Sessions
mod Servers
mod Videos
mod Controls
mod Cryptos
mod Fecs
mod Audios
mod Inputs
