-- ===== src/Examples.antt =====
-- Runs of the model on concrete inputs: tests of the definitions, and each theorem that has a
-- hypothesis at an input that meets it.
mod Ledgers
mod Stores
mod Worker
mod Sentinel
mod Links
use cold_harbour.Common.{
  ◌≡◌, refl, inl, inr, true, false, Option, none, some, List, [], ◌∷◌, ◌++◌, Text, codes, arith,
  length, Any, All, ◌↔◌, sort, insert_by,
}
use cold_harbour.Detect.Span.{email, phone_us, ssn, credit_card, Kind-discrete, Span}
use cold_harbour.Detect.Select.Cover.{Covers}
use cold_harbour.Detect.Select.Disjoint.{LaidOut}
use cold_harbour.Detect.Regex.{find_all, is_digit}
use cold_harbour.Detect.Regex.Bounds.{Located, find_all-Located}
use cold_harbour.Detect.Patterns.{email_pattern}
use cold_harbour.Detect.Checksum.{mult, perm, verhoeff_ok, verhoeff_check, luhn_ok}
use cold_harbour.Detect.Checksum.Verhoeff.{
  verhoeff_check-ok, verhoeff_ok_one_digit, verhoeff_ok_swap,
}
use cold_harbour.Detect.Checksum.Luhn.{luhn_ok_one_digit}
use cold_harbour.Detect.Scan.{Detector, detectors, scan, regex_spans, allows}
use cold_harbour.Detect.Scan.Bounds.{Reports, scan-Reports, scan-Covers}
use cold_harbour.Detect.Apply.{redact, partial, apply, replacement}
use cold_harbour.Detect.Apply.Pieces.{pieces, render, hidden_count}
use cold_harbour.Detect.Apply.Laws.{apply-scan, apply_partial-length}
use cold_harbour.Policy.{Doc, default_doc, parse, accepted, rejected, detectors_field, pos, closed}
use cold_harbour.Policy.Validation.{IsValid, parse-accepted, parse_rejects_card_or_ip}
use cold_harbour.Redact.{
  RedactCounts, RedactResult, no_counts, token, redact_pii, apply_spans, step_kinds,
}
use cold_harbour.Redact.Output.{Counted, masked, apply_spans-scan, redact_pii-masked}
use cold_harbour.Redact.Resume.{Input, run, policy_for, outcome_of, run_again, run-redact_pii}

abbrev line : Text
line = codes "mail jo@ex.org or 123-45-6789"

abbrev line_spans : List Span
line_spans =
    (record { kind = email; start = 5; stop = 14 })
    ∷ (record { kind = ssn; start = 18; stop = 29 })
    ∷ []

line_scanned : scan line (email ∷ ssn ∷ []) ≡ line_spans
unfolding scan detectors Kind-discrete sort insert_by find_all
line_scanned = refl

line_redacted :
    redact_pii line
    ≡ some (record {
      redacted_text = codes "mail [EMAIL_REDACTED] or [SSN_REDACTED]";
      counts = record { emails = 1; phones = 0; ssns = 1 };
      policy_version = pos 0;
    })
unfolding redact_pii apply_spans scan detectors Kind-discrete sort insert_by find_all
line_redacted = refl

-- A hash for the runs: any function serves.
abbrev no_hash : Text → Text
no_hash t = t

line_applied :
    (apply no_hash line (scan line (email ∷ ssn ∷ [])) partial).0
    ≡ codes "mail *****.org or *******6789"
unfolding apply scan detectors Kind-discrete sort insert_by find_all
line_applied = refl

scan-Reports_example :
    All (Reports line (email ∷ [])) (scan line (email ∷ [])) × LaidOut 0 (scan line (email ∷ []))
scan-Reports_example = scan-Reports line (email ∷ [])

abbrev email_detector : Detector
email_detector = record { kind = email; find = regex_spans email email_pattern }

abbrev first_span : Span
first_span = record { kind = email; start = 5; stop = 14 }

scan-Covers_example : Any (Covers first_span) (scan line (email ∷ []))
unfolding detectors allows Kind-discrete find_all
scan-Covers_example =
    scan-Covers line (email ∷ []) email_detector first_span (inl refl) refl (inl refl) (omega arith)

apply-scan_example :
    let cut = pieces line 0 (scan line (email ∷ [])) in
    let done = apply no_hash line (scan line (email ∷ [])) redact in
    (done.0 ≡ render (replacement no_hash redact) cut)
    × (render (λ j t. t) cut ≡ line)
    × (done.1 email ≡ hidden_count email cut)
apply-scan_example = apply-scan no_hash redact line (email ∷ []) email

apply_partial-length_example :
    length (apply no_hash line (scan line (ssn ∷ [])) partial).0 ≡ length line
apply_partial-length_example = apply_partial-length no_hash line (ssn ∷ [])

find_all-Located_example : Located 0 (length line) (find_all email_pattern line)
find_all-Located_example = find_all-Located email_pattern line (omega arith)

verhoeff_check_known : verhoeff_check (codes "23412341234") ≡ b'6'
unfolding verhoeff_check mult perm
verhoeff_check_known = refl

verhoeff_check-ok_example : verhoeff_ok (codes "236" ++ verhoeff_check (codes "236") ∷ []) ≡ true
unfolding is_digit
verhoeff_check-ok_example = verhoeff_check-ok (codes "236") (refl, (refl, (refl, tt)))

verhoeff_ok_one_digit_example : verhoeff_ok (codes "23" ++ b'7' ∷ codes "3") ≡ false
unfolding verhoeff_ok is_digit mult perm
verhoeff_ok_one_digit_example =
    verhoeff_ok_one_digit (codes "23") b'6' b'7' (codes "3") (refl, (refl, tt)) refl refl (refl, tt)
      (omega arith) refl

verhoeff_ok_swap_example : verhoeff_ok (codes "2" ++ b'6' ∷ b'3' ∷ codes "3") ≡ false
unfolding verhoeff_ok is_digit mult perm
verhoeff_ok_swap_example =
    verhoeff_ok_swap (codes "2") b'3' b'6' (codes "3") (refl, tt) refl refl (refl, tt) (omega arith)
      refl

luhn_ok_one_digit_example : luhn_ok (codes "79" ++ b'8' ∷ codes "73") ≡ false
unfolding luhn_ok is_digit
luhn_ok_one_digit_example =
    luhn_ok_one_digit (codes "79") b'6' b'8' (codes "73") (refl, (refl, tt)) refl refl
      (refl, (refl, tt)) (omega arith) refl

abbrev decode_default : Text → Option Doc
decode_default t = some default_doc

parse-accepted_example :
    (parse decode_default [] ≡ accepted default_doc)
    ↔ ((decode_default [] ≡ some default_doc) × IsValid default_doc)
parse-accepted_example = parse-accepted decode_default [] default_doc

abbrev card_doc : Doc
card_doc = record {
  version = pos 1;
  detectors = email ∷ credit_card ∷ [];
  mode = redact;
  fail_policy = closed;
  max_inline_bytes = pos 10;
}

parse_rejects_card_or_ip_example : parse (λ t. some card_doc) [] ≡ rejected detectors_field
parse_rejects_card_or_ip_example =
    parse_rejects_card_or_ip (λ t. some card_doc) [] card_doc refl (inr (inl (inl refl)))

apply_spans-scan_example :
    let cut = pieces line 0 (scan line (email ∷ [])) in
    (after : RedactCounts) × (apply_spans line no_counts (scan line (email ∷ []))
      ≡ some (render (λ k t. token k) cut, after))
    × (render (λ k t. t) cut ≡ line)
    × Counted no_counts after
        (hidden_count email cut)
        (hidden_count phone_us cut)
        (hidden_count ssn cut)
apply_spans-scan_example = apply_spans-scan line (email ∷ []) no_counts

redact_pii-masked_example :
    (r : RedactResult) × (redact_pii line ≡ some r)
    × (r.redacted_text ≡ masked (masked line (step_kinds false)) (step_kinds true))
redact_pii-masked_example = redact_pii-masked line

abbrev job_input : Input
job_input = record { text = some line; tenant = [] }

run_again_example :
    run no_hash none job_input (run no_hash none job_input none true).1 false
    ≡ run no_hash none job_input none true
run_again_example = run_again no_hash none job_input false

run-redact_pii_example : (run no_hash none job_input none true).0 ≡ outcome_of (redact_pii line)
unfolding policy_for
run-redact_pii_example = run-redact_pii no_hash line [] none refl
