-- ===== src/Sentinel/Report.antt =====
-- cmd/sentinel/scan.go: personal data counted in the files below a directory.
pub mod Totals
use cold_harbour.Common.{
  ℕ, suc, ◌+◌, Bool, true, false, ◌||◌, Option, none, some, List, [], ◌∷◌, ◌++◌, Text, codes,
  if◌then◌else◌, ◌==◌, ltb, text_eq, map,
}
use cold_harbour.Detect.Span.{Kind, email, phone_us, phone_in, ssn, aadhaar, pan, credit_card, ip}
use cold_harbour.Detect.Regex.{between}
use cold_harbour.Detect.Scan.{scan}
use cold_harbour.Detect.Apply.{Counts, no_counts}
use cold_harbour.Sentinel.Mask.{count_spans}

abbrev pub scan_kinds : List Kind
scan_kinds = aadhaar ∷ pan ∷ credit_card ∷ email ∷ phone_in ∷ phone_us ∷ ssn ∷ ip ∷ []

-- A file as `bufio.Scanner` gives it: its lines of at most a megabyte, and whether it ended without an
-- error.
pub record FileText : Type 0 where
  pub lines : List Text
  pub whole : Bool

-- What `filepath.WalkDir` meets: a file, `none` if it cannot be opened, with its name; a directory, with
-- its name and what is in it; what it cannot read.
mutual
  pub data Tree : Type 0 where
    file : Text → Option FileText → Tree
    dir : Text → Forest → Tree
    unreadable : Tree

  pub data Forest : Type 0 where
    empty : Forest
    branch : Tree → Forest → Forest

-- `FileFinding`, with the file's name for its path.
pub record FileFinding : Type 0 where
  pub name : Text
  pub findings : Counts

-- `ScanReport`, but for the risk score.
pub record ScanReport : Type 0 where
  pub files_scanned : ℕ
  pub lines_scanned : ℕ
  pub findings : Counts
  pub total_pii : ℕ
  pub file_details : List FileFinding

abbrev pub no_report : ScanReport
no_report = record {
  files_scanned = 0;
  lines_scanned = 0;
  findings = no_counts;
  total_pii = 0;
  file_details = [];
}

-- The loop of `scanFile`.
unfoldable pub scan_lines : List Text → Counts → ℕ → Counts × ℕ
unfolding count_spans
scan_lines [] counts lines = (counts, lines)
scan_lines (t ∷ ts) counts lines =
    scan_lines ts (count_spans (scan t scan_kinds) counts) (suc lines)

-- `scanFile`; `none` is its error.
unfoldable pub scan_file : Option FileText → Option (Counts × ℕ)
unfolding scan_lines
scan_file none = none
scan_file (some f) = if f.whole then some (scan_lines f.lines no_counts 0) else none

-- The sum over the entries of a map, whose keys are of these kinds.
abbrev pub total : Counts → ℕ
total c =
    c aadhaar + (c pan + (c credit_card + (c email + (c phone_in + (c phone_us + (c ssn + c ip))))))

-- `report.FileDetails`, `Findings` and `TotalPII` after a file.
unfoldable pub with_findings : ScanReport → Text → Counts → ScanReport
with_findings r name found = if total found == 0 then r else record r {
  file_details = r.file_details ++ record { name = name; findings = found } ∷ [];
  findings = λ k. r.findings k + found k;
  total_pii = r.total_pii + total found;
}

unfoldable pub with_file : ScanReport → Text → Option (Counts × ℕ) → ScanReport
unfolding with_findings
with_file r name none = r
with_file r name (some (found, lines)) =
    with_findings
      (record r { files_scanned = suc r.files_scanned; lines_scanned = r.lines_scanned + lines })
      name found

-- The directories that are left out.
abbrev pub starts_with_dot : Text → Bool
starts_with_dot [] = false
starts_with_dot (c ∷ cs) = c == b'.'

unfoldable pub skips_dir : Text → Bool
skips_dir name =
    starts_with_dot name || text_eq name (codes "node_modules") || text_eq name (codes "vendor")

-- `filepath.Ext` of a name: from its last dot on; and `strings.ToLower` on ASCII.
unfoldable pub last_dot : Text → Option Text
last_dot [] = none
last_dot (c ∷ cs) = elim (last_dot cs) [
  | some e ↦ some e
  | none ↦ if c == b'.' then some (c ∷ cs) else none
]

abbrev pub lower : ℕ → ℕ
lower c = if between b'A' b'Z' c then c + 32 else c

unfoldable pub is_one_of : Text → List Text → Bool
is_one_of t [] = false
is_one_of t (u ∷ us) = let rest = is_one_of t us in text_eq t u || rest

abbrev pub binary_extensions : List Text
binary_extensions =
    codes ".exe"
    ∷ codes ".dll"
    ∷ codes ".so"
    ∷ codes ".zip"
    ∷ codes ".gz"
    ∷ codes ".tar"
    ∷ codes ".png"
    ∷ codes ".jpg"
    ∷ []

unfoldable pub skips_file : Text → Bool
unfolding last_dot is_one_of
skips_file name = elim (last_dot name) [
  | none ↦ false
  | some e ↦ is_one_of (map lower e) binary_extensions
]

-- `walkFn` on everything that `WalkDir` meets.
unfoldable mutual
  unfolding skips_dir skips_file with_file scan_file

  pub walk_tree : Tree → ScanReport → ScanReport
  walk_tree unreadable r = r
  walk_tree (dir name below) r =
      let inside = walk_forest below r in if skips_dir name then r else inside
  walk_tree (file name text) r = if skips_file name then r else with_file r name (scan_file text)

  pub walk_forest : Forest → ScanReport → ScanReport
  walk_forest empty r = r
  walk_forest (branch t below) r = walk_forest below (walk_tree t r)

-- `runScan` on its target: a file is scanned whatever its name.
unfoldable pub run_scan : Tree → ScanReport
unfolding walk_tree with_file scan_file
run_scan (file name text) = with_file no_report name (scan_file text)
run_scan t = walk_tree t no_report

pub data Risk : Type 0 where
  clean low medium high : Risk

unfoldable pub risk_score : ScanReport → Risk
risk_score r =
    if r.total_pii == 0
    then clean
    else if ltb r.total_pii 5
    then low
    else if ltb r.total_pii 20
    then medium
    else high

-- The exit status.
abbrev pub exit_status : ScanReport → ℕ
exit_status r = if ltb 0 r.total_pii then 1 else 0
