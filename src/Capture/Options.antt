-- ===== src/Capture/Options.antt =====
-- The options of a capture and the reports that are kept, in src/passive_capture.rs. A duration is its
-- number of nanoseconds.
use context_guardian.Prelude.{
  ℕ, ◌-◌, ◌*◌, ◌^◌, String, Bool, not, ◌&&◌, ◌||◌, List, [], ◌∷◌, ltb, leb, eqb, if◌then◌else◌, len,
  codes, all, is_empty_text, length, take, filter,
}
use context_guardian.Capture.Io.{io_error, IoResult, ok, error, ◌>>=◌}
use context_guardian.Capture.Differences.{sort_texts}
use context_guardian.Capture.Correlate.{is_report_name}

pub record CaptureOptions : Type 0 where
  pub interface : String
  pub port : ℕ
  pub duration : ℕ
  pub max_pcap_bytes : ℕ
  pub max_reports : ℕ
  pub report_dir : String
  pub tcpdump : String

abbrev pub default_max_body_bytes : ℕ
default_max_body_bytes = 32 * 1024 * 1024

-- `is_ascii_alphanumeric`, or one of `_`, `-` and `.`
unfoldable pub is_interface_char : ℕ → Bool
is_interface_char n =
    (leb 48 n && leb n 57)
    || ((leb 65 n && leb n 90) || ((leb 97 n && leb n 122) || (eqb n 95 || (eqb n 45 || eqb n 46))))

abbrev pub invalid_input : String → IoResult Unit
invalid_input message = error (io_error "InvalidInput" message)

-- Whether there is a file at a path is asked of the file system.
unfoldable pub validate_options : (String → Bool) → CaptureOptions → IoResult Unit
validate_options is_file options =
    if eqb options.port 0
    then invalid_input "port must be non-zero"
    else if is_empty_text options.interface
        || (ltb 64 (len options.interface) || not (all is_interface_char (codes options.interface)))
    then invalid_input "interface contains unsafe characters"
    else if not (leb (10 ^ 9) options.duration && leb options.duration (900 * 10 ^ 9))
    then invalid_input "capture duration must be between 1 and 900 seconds"
    else if not
        (leb (64 * 1024) options.max_pcap_bytes && leb options.max_pcap_bytes (256 * 1024 * 1024))
    then invalid_input "PCAP limit must be between 64 KiB and 256 MiB"
    else if not (leb 2 options.max_reports && leb options.max_reports 10000)
    then invalid_input "report retention must be between 2 and 10000 files"
    else if not (is_file options.tcpdump)
    then error (io_error "NotFound" "tcpdump executable was not found")
    else ok tt

-- The names of the reports that are removed from a directory: the first ones in the order of the names.
unfoldable pub removed_reports : ℕ → List String → List String
removed_reports max_reports names =
    let reports = sort_texts (filter is_report_name names) in
    take (length reports - max_reports) reports

-- The loop over these, with the outcome of each removal; the first error ends it.
unfoldable pub remove_all : (String → IoResult Unit) → List String → IoResult Unit
remove_all remove_file [] = ok tt
remove_all remove_file (path ∷ paths) = do done ← remove_file path; remove_all remove_file paths

unfoldable pub prune_old_reports :
    IoResult (List String) → (String → IoResult Unit) → ℕ → IoResult Unit
prune_old_reports read_dir remove_file max_reports = do
  names ← read_dir
  remove_all remove_file (removed_reports max_reports names)
