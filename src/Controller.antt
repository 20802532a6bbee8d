-- ===== src/Controller.antt =====
-- k8s/controller/reconciler.go: the controller that keeps a Secret with a fresh token for each JWTRequest.
pub mod Request
pub mod Conditions
pub mod Schedule
pub mod Minting
pub mod Reconcile
