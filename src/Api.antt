-- ===== src/Api.antt =====
-- internal/api: the HTTP interface of the control plane, of which the delivery links are modelled.
pub mod Links
