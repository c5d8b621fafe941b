-- ===== src/Sentinel/Report/Totals.antt =====
-- The numbers of a report, and what they were counted from.
use cold_harbour.Common.{
  ℕ, suc, ◌+◌, ◌≡◌, refl, ◌∙◌, true, Option, none, some, List, [], ◌∷◌, ◌++◌, Text, if◌then◌else◌,
  ◌==◌, length, arith, Bool-cases, inl, inr, All, if-cases, ◌↔◌,
}
use cold_harbour.Detect.Span.{
  Kind, Span, email, phone_us, phone_in, ssn, aadhaar, pan, credit_card, ip, other, Kind-discrete,
}
use cold_harbour.Detect.Scan.{scan, allows}
use cold_harbour.Detect.Scan.Bounds.{Reports, scan-Reports}
use cold_harbour.Detect.Apply.{Counts, bump, no_counts}
use cold_harbour.Sentinel.Mask.{count_spans}
use cold_harbour.Sentinel.Report.{
  scan_kinds, FileText, Tree, file, dir, unreadable, Forest, empty, branch, FileFinding, ScanReport,
  no_report, scan_lines, scan_file, total, with_findings, with_file, skips_dir, skips_file,
  walk_tree, walk_forest, run_scan, clean, risk_score, starts_with_dot,
}

-- The number of spans in the lines of a file.
unfoldable pub spans_of_lines : List Text → ℕ
spans_of_lines [] = 0
spans_of_lines (t ∷ ts) = length (scan t scan_kinds) + spans_of_lines ts

unfoldable pub spans_of_file : Option FileText → ℕ
unfolding spans_of_lines
spans_of_file none = 0
spans_of_file (some f) = if f.whole then spans_of_lines f.lines else 0

-- The number of spans in the files that the walk reads.
unfoldable mutual
  unfolding spans_of_file

  pub spans_below : Tree → ℕ
  spans_below unreadable = 0
  spans_below (dir name below) = let n = spans_of_forest below in if skips_dir name then 0 else n
  spans_below (file name text) = if skips_file name then 0 else spans_of_file text

  pub spans_of_forest : Forest → ℕ
  spans_of_forest empty = 0
  spans_of_forest (branch t below) = spans_below t + spans_of_forest below

total-bump : (c : Counts) (k : Kind) → allows scan_kinds k ≡ true → total (bump c k) ≡ suc (total c)
unfolding bump allows Kind-discrete
total-bump c email h = omega arith
total-bump c phone_us h = omega arith
total-bump c phone_in h = omega arith
total-bump c ssn h = omega arith
total-bump c aadhaar h = omega arith
total-bump c pan h = omega arith
total-bump c credit_card h = omega arith
total-bump c ip h = omega arith
total-bump c (other t) h = absurd (ground arith)

total-count_spans :
    (s : Text) (sps : List Span) (c : Counts)
    → All (Reports s scan_kinds) sps
    → total (count_spans sps c) ≡ length sps + total c
unfolding count_spans
total-count_spans s [] c h = omega arith
total-count_spans s (sp ∷ sps) c h =
    omega (arith, total-count_spans s sps (bump c sp.kind) h.1, total-bump c sp.kind h.0.0)

total-scan_lines :
    (ts : List Text) (c : Counts) (n : ℕ)
    → total (scan_lines ts c n).0 ≡ spans_of_lines ts + total c
unfolding scan_lines spans_of_lines
total-scan_lines [] c n = omega arith
total-scan_lines (t ∷ ts) c n = omega (
  arith,
  total-scan_lines ts (count_spans (scan t scan_kinds) c) (suc n),
  total-count_spans t (scan t scan_kinds) c (scan-Reports t scan_kinds).0,
)

-- What is counted in a report by three ways.
abbrev pub details_total : List FileFinding → ℕ
details_total [] = 0
details_total (f ∷ fs) = total f.findings + details_total fs

-- The total, the findings by kind and the findings by file agree.
pub record Agrees (r : ScanReport) (n : ℕ) : Type 0 where
  pub pii : r.total_pii ≡ n
  pub by_kind : total r.findings ≡ n
  pub by_file : details_total r.file_details ≡ n

details_total-append :
    (fs : List FileFinding) (f : FileFinding)
    → details_total (fs ++ f ∷ []) ≡ details_total fs + total f.findings
details_total-append [] f = omega arith
details_total-append (g ∷ fs) f = omega (arith, details_total-append fs f)

more-Agrees : (r : ScanReport) (m n : ℕ) → Agrees r m → m ≡ n → Agrees r n
more-Agrees r m n a e = record { pii = a.pii ∙ e; by_kind = a.by_kind ∙ e; by_file = a.by_file ∙ e }

none_yet : Agrees no_report 0
none_yet = record { pii = refl; by_kind = refl; by_file = refl }

with_findings-Agrees :
    (r : ScanReport) (n : ℕ) (name : Text) (found : Counts)
    → Agrees r n
    → Agrees (with_findings r name found) (n + total found)
unfolding with_findings
with_findings-Agrees r n name found a =
    if-cases (λ t. Agrees t (n + total found)) (total found == 0) r _
      (λ e. record { pii = ground arith; by_kind = ground arith; by_file = ground arith })
      (λ e. record {
        pii = omega arith;
        by_kind = omega arith;
        by_file =
            omega (
              arith,
              details_total-append r.file_details (record { name = name; findings = found }),
            );
      })

with_file-Agrees :
    (r : ScanReport) (n : ℕ) (name : Text) (text : Option FileText)
    → Agrees r n
    → Agrees (with_file r name (scan_file text)) (n + spans_of_file text)
unfolding with_file scan_file spans_of_file
with_file-Agrees r n name none a = more-Agrees r n (n + 0) a (omega arith)
with_file-Agrees r n name (some f) a = elim (Bool-cases f.whole) [
  | inl t ↦ rw t (
      let (found, lines) = scan_lines f.lines no_counts 0 in
      let read = record r {
        files_scanned = suc r.files_scanned;
        lines_scanned = r.lines_scanned + lines;
      } in
      more-Agrees (with_findings read name found) (n + total found) (n + spans_of_lines f.lines)
        (with_findings-Agrees read n name found
          (record { pii = a.pii; by_kind = a.by_kind; by_file = a.by_file }))
        (omega (arith, total-scan_lines f.lines no_counts 0)))
  | inr t ↦ rw t (more-Agrees r n (n + 0) a (omega arith))
]

mutual
  unfolding walk_tree spans_below

  walk_tree-Agrees :
      (t : Tree) (r : ScanReport) (n : ℕ) → Agrees r n → Agrees (walk_tree t r) (n + spans_below t)
  walk_tree-Agrees unreadable r n a = more-Agrees r n (n + 0) a (omega arith)
  walk_tree-Agrees (dir name below) r n a = elim (Bool-cases (skips_dir name)) [
    | inl t ↦ rw t (more-Agrees r n (n + 0) a (omega arith))
    | inr t ↦ rw t (walk_forest-Agrees below r n a)
  ]
  walk_tree-Agrees (file name text) r n a = elim (Bool-cases (skips_file name)) [
    | inl t ↦ rw t (more-Agrees r n (n + 0) a (omega arith))
    | inr t ↦ rw t (with_file-Agrees r n name text a)
  ]

  walk_forest-Agrees :
      (f : Forest) (r : ScanReport) (n : ℕ)
      → Agrees r n
      → Agrees (walk_forest f r) (n + spans_of_forest f)
  walk_forest-Agrees empty r n a = more-Agrees r n (n + 0) a (omega arith)
  walk_forest-Agrees (branch t below) r n a =
      more-Agrees (walk_forest below (walk_tree t r)) ((n + spans_below t) + spans_of_forest below)
        (n + (spans_below t + spans_of_forest below))
        (walk_forest-Agrees below (walk_tree t r) (n + spans_below t) (walk_tree-Agrees t r n a))
        (omega arith)

-- The number of spans in what a scan reads.
unfoldable pub spans_in : Tree → ℕ
unfolding spans_of_file spans_below
spans_in (file name text) = spans_of_file text
spans_in t = spans_below t

-- For every file or directory: the total of the report of `sentinel scan`, the sum of its findings by
-- kind, and the sum of its findings by file are each the number of spans that `Scan` reports in the lines
-- of the files that are read: those with a whole text and no binary extension, outside the directories
-- that are left out.
pub run_scan-Agrees : (t : Tree) → Agrees (run_scan t) (spans_in t)
unfolding run_scan spans_in
run_scan-Agrees (file name text) =
    more-Agrees (with_file no_report name (scan_file text)) (0 + spans_of_file text) _
      (with_file-Agrees no_report 0 name text none_yet) (omega arith)
run_scan-Agrees unreadable = none_yet
run_scan-Agrees (dir name below) =
    more-Agrees (walk_tree (dir name below) no_report) (0 + spans_below (dir name below)) _
      (walk_tree-Agrees (dir name below) no_report 0 none_yet) (omega arith)

risk_score-clean : (r : ScanReport) (n : ℕ) → Agrees r n → (risk_score r ≡ clean) ↔ (n ≡ 0)
unfolding risk_score
risk_score-clean r n a = (λ e. ground arith, λ e. ground arith)

-- The risk is `CLEAN` exactly when no line of a file that is read has a span.
pub run_scan-clean : (t : Tree) → (risk_score (run_scan t) ≡ clean) ↔ (spans_in t ≡ 0)
run_scan-clean t = risk_score-clean (run_scan t) (spans_in t) (run_scan-Agrees t)

-- A directory whose name begins with a dot is left out also when it is the target of the scan, as `.` is,
-- which is the target when none is named: whatever is in it, no file is read, and the risk is `CLEAN`.
pub run_scan-hidden :
    (name : Text) (below : Forest)
    → starts_with_dot name ≡ true
    → (run_scan (dir name below) ≡ no_report) × (risk_score (run_scan (dir name below)) ≡ clean)
unfolding run_scan walk_tree skips_dir risk_score
run_scan-hidden name below h = rw h (refl, refl)
