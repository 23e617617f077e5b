-- ===== src/Tests.antt =====
-- Runs of the model on concrete inputs, and each theorem at an input that meets its hypotheses.
mod FakeIp
mod Address
mod AnyTls
mod Connections
mod Hysteria
mod Obfs
mod RuleNet
mod Rules
mod Salamander
mod Text
mod Vless
