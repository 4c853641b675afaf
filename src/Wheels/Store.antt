-- ===== src/Wheels/Store.antt =====
-- `materialize_asset` and `main` of scripts/select-wheel.py on the files of a directory. The
-- digest of a content and what a copy or a download leaves are parameters.
pub mod Safe
use runpod_sageattention.Base.{
  ℕ, String, ◌<>◌, str_eq, Bool, true, false, not, ◌&&◌, ◌||◌, Option, none, some, List, [], ◌∷◌,
  ◌++◌, if◌then◌else◌,
}
use runpod_sageattention.Json.{Json, Fields, str, get, is_str}
use runpod_sageattention.Job.Failure.{
  Result, ok, err, Failure, selection_error, other_error, raise_if, ◌>>=◌, ◌>>◌,
}
use runpod_sageattention.Wheels.Locate.{Location, remote, local}

-- The files of the destination, by their names.
abbrev pub Files : Type 0 → Type 0
Files C = String → Option C

unfoldable pub write : {C : Type 0} → String → Option C → Files C → Files C
write name content files = λ other. if str_eq name other then content else files other

-- How the wheel comes from its location into the temporary file.
pub data Fetch (C : Type 0) : Type 0 where
  -- the source is the file of that name in the destination
  in_place : Fetch C
  -- the whole content arrived
  whole : C → Fetch C
  -- an exception, with the part that was written
  broken : Option C → Fetch C
  -- the download was redirected away from HTTPS, after the temporary file was opened
  redirected : C → Fetch C

-- The files afterwards, with the name of the returned path.
pub record Outcome (C : Type 0) : Type 0 where
  pub files : Files C
  pub returned : Result String

unfoldable pub part_name : String → String
part_name asset = "." <> (asset <> ".part")

abbrev mismatch : Failure
mismatch = selection_error "SHA-256 mismatch"

module _ {C : Type 0} (digest : C → String) where
  -- the check of a source that is already in its place
  unfoldable pub check_in_place : Files C → String → Json → Option C → Outcome C
  check_in_place files asset expected none = record {
    files = files;
    returned = err (other_error "OSError");
  }
  check_in_place files asset expected (some content) =
      if is_str expected (digest content)
      then record { files = files; returned = ok asset }
      else record { files = files; returned = err mismatch }

  -- the digest of the temporary file decides between `os.replace` and `unlink`
  unfoldable pub finish : Files C → String → Json → C → Outcome C
  unfolding write part_name
  finish files asset expected content =
      if is_str expected (digest content)
      then record {
        files = write asset (some content) (write (part_name asset) none files);
        returned = ok asset;
      }
      else record { files = write (part_name asset) none files; returned = err mismatch }

  -- `materialize_asset`
  unfoldable pub materialize : Files C → Fetch C → String → Json → Outcome C
  unfolding check_in_place finish
  materialize files in_place asset expected = check_in_place files asset expected (files asset)
  materialize files (whole content) asset expected =
      finish (write (part_name asset) (some content) (write (part_name asset) none files)) asset
        expected content
  materialize files (broken part) asset expected = record {
    files = write (part_name asset) part (write (part_name asset) none files);
    returned = err (other_error "OSError");
  }
  materialize files (redirected empty) asset expected = record {
    files = write (part_name asset) (some empty) (write (part_name asset) none files);
    returned = err (selection_error "Wheel download redirected away from HTTPS");
  }
