-- ===== src/Webhook.antt =====
-- internal/webhook/v1alpha1: the validation of policies and the admission of approval decisions.
pub mod Policy
pub mod Approval
