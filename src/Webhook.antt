-- ===== src/Webhook.antt =====
-- pkg/webhook/pod: the admission webhook that puts the fault-injecting file system beside a pod.
pub mod Defs
pub mod Mutation
mod Tests
