-- ===== src/Detect/Span.antt =====
-- internal/detect/detect.go and creditcard.go: the kinds of personal data, and the spans that the
-- detectors report.
use cold_harbour.Common.{ℕ, ◌-◌, Text, codes, ℕ_discrete}

-- `Kind` is a Go string; `other` is any text but the eight constants.
pub data Kind : Type 0 where
  email phone_us phone_in ssn aadhaar pan credit_card ip : Kind
  other : Text → Kind

unfoldable pub kind_name : Kind → Text
kind_name email = codes "email"
kind_name phone_us = codes "phone_us"
kind_name phone_in = codes "phone_in"
kind_name ssn = codes "ssn"
kind_name aadhaar = codes "aadhaar"
kind_name pan = codes "pan"
kind_name credit_card = codes "credit_card"
kind_name ip = codes "ip"
kind_name (other t) = t

unfoldable pub Kind-discrete : Discrete Kind
Kind-discrete = hlevel ℕ_discrete

-- `stop` is the source's `End`. Offsets come from slices of a text, and are never negative.
pub record Span : Type 0 where
  pub kind : Kind
  pub start : ℕ
  pub stop : ℕ

-- `sp.End - sp.Start`, for a span that does not end before its start.
abbrev pub width : Span → ℕ
width s = s.stop - s.start
