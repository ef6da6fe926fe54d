-- ===== src/UploadPolicy.antt =====
-- api/services/upload_policy.py: uploads that are streamed to files under limits. The files of a
-- directory are a dictionary from paths to contents, and the budget of a request is the number of bytes
-- that it has taken. An upload takes both and leaves both.
pub mod Limits
pub mod Request
mod Examples
use breach_scope.Prelude.{
  ℕ, zero, suc, ◌+◌, String, Bool, true, false, not, Option, none, some, List, [], ◌∷◌, ◌++◌, ◌==◌,
  leb, length, if◌then◌else◌,
}
use breach_scope.Prelude.Text.{strip}
use breach_scope.Prelude.Dict.{find, put, pop}
use breach_scope.Prelude.Integers.{ℤ, pos, negsuc}
use breach_scope.Prelude.Result.{Result, ok, err, guard, ◌>>=◌, ◌>>◌}

abbrev pub Bytes : Type 0
Bytes = List ℕ

abbrev pub Files : Type 0
Files = List (String × Bytes)

-- UploadLimitError, by its message; FileExistsError; what the source's `read` raises; what the write raises.
pub data UploadError : Type 0 where
  not_an_integer not_positive too_many_files file_too_large total_too_large : UploadError
  file_exists unreadable unwritable : UploadError

unfoldable pub check_positive : ℤ → Result UploadError ℕ
check_positive (pos zero) = err not_positive
check_positive (pos (suc n)) = ok (suc n)
check_positive (negsuc n) = err not_positive

-- `parse` is `int` on a text, none where it raises; `raw` the variable's text, or "".
unfoldable pub positive_int_env :
    (parse : String → Option ℤ) (raw : String) (default : ℕ) → Result UploadError ℕ
unfolding strip check_positive
positive_int_env parse raw default =
    if strip raw == ""
    then ok default
    else elim (parse (strip raw)) [ none ↦ err not_an_integer | some n ↦ check_positive n ]

-- The limits of a call, each read when it is needed.
pub record Settings : Type 0 where
  pub chunk_bytes : Result UploadError ℕ
  pub max_file_bytes : Result UploadError ℕ
  pub max_total_bytes : Result UploadError ℕ
  pub max_files : Result UploadError ℕ

-- The four variables' texts, in the order of the fields.
unfoldable pub configured : (parse : String → Option ℤ) (chunk file total count : String) → Settings
unfolding positive_int_env
configured parse chunk file total count = record {
  chunk_bytes = positive_int_env parse chunk 1048576;
  max_file_bytes = positive_int_env parse file 536870912;
  max_total_bytes = positive_int_env parse total 1073741824;
  max_files = positive_int_env parse count 32;
}

-- What a call of the source's `read` gives, and whether the disk then takes it. A `failure` is an Exception; the
-- cancellation of the task is none, and has no constructor.
pub data Read : Type 0 where
  chunk : (bytes : Bytes) (written : Bool) → Read
  failure : Read

-- How a loop ends: its result, the content written so far, and the budget.
pub record Progress : Type 0 where
  pub result : Result UploadError ℕ
  pub content : Bytes
  pub total : ℕ

unfoldable pub after_add :
    (bytes : Bytes) (written : Bool) (content : Bytes) (total : ℕ)
    → Result UploadError ℕ
    → (continue : (content : Bytes) → (total : ℕ) → Progress) → Progress
after_add bytes written content total (err e) continue = record {
  result = err e;
  content = content;
  total = total;
}
after_add bytes true content total (ok total') continue = continue (content ++ bytes) total'
after_add bytes false content total (ok total') continue = record {
  result = err unwritable;
  content = content;
  total = total';
}

pub record Outcome : Type 0 where
  pub result : Result UploadError ℕ
  pub files : Files
  pub total : ℕ

-- The file as the `with` block leaves it, or none at all if the block raised.
unfoldable pub close : (destination : String) → Files → Progress → Outcome
close destination files progress = record {
  result = progress.result;
  files = elim progress.result [
    | ok _ ↦ put destination progress.content files
    | err _ ↦ pop destination (put destination progress.content files)
  ];
  total = progress.total;
}

unfoldable pub refuse : UploadError → Files → ℕ → Outcome
refuse e files total = record { result = err e; files = files; total = total }

-- Opening with mode "xb" fails where the file is there. Other errors of opening are left out.
unfoldable pub open_exclusive : (destination : String) → Files → (total : ℕ) → Progress → Outcome
unfolding close refuse
open_exclusive destination files total progress = elim (find destination files) [
  | some _ ↦ refuse file_exists files total
  | none ↦ close destination files progress
]

-- What is uploaded: an object with `read`, or bytes.
pub data Source : Type 0 where
  reader : List Read → Source
  blob : (bytes : Bytes) (written : Bool) → Source

module _ (settings : Settings) where
  unfoldable pub validate_file_count : (count : ℕ) → Result UploadError (Unit {0})
  validate_file_count count = do limit ← settings.max_files; guard (leb count limit) too_many_files

  -- UploadBudget.add
  unfoldable pub add : (amount total : ℕ) → Result UploadError ℕ
  add amount total = do
    limit ← settings.max_total_bytes
    guard (leb (total + amount) limit) total_too_large
    ok (total + amount)

  -- The loop over the chunks. `written` is the length of the content; a read past the last one gives b"".
  unfoldable pub stream : (limit : ℕ) → List Read → (content : Bytes) → (total : ℕ) → Progress
  unfolding add after_add
  stream limit [] content total = record {
    result = ok (length content);
    content = content;
    total = total;
  }
  stream limit (failure ∷ reads) content total = record {
    result = err unreadable;
    content = content;
    total = total;
  }
  stream limit (chunk [] written ∷ reads) content total = record {
    result = ok (length content);
    content = content;
    total = total;
  }
  stream limit (chunk (b ∷ bytes) written ∷ reads) content total =
      let continue = λ (c : Bytes) (t : ℕ). stream limit reads c t in
      if leb (length content + length (b ∷ bytes)) limit
      then after_add (b ∷ bytes) written content total (add (length (b ∷ bytes)) total) continue
      else record { result = err file_too_large; content = content; total = total }

  -- Bytes in memory, as one chunk; the file's size is checked before the file is opened.
  unfoldable pub store : (bytes : Bytes) (written : Bool) (total : ℕ) → Progress
  unfolding add after_add
  store bytes written total =
      after_add bytes written [] total (add (length bytes) total)
        (λ content total'. record { result = ok (length bytes); content = content; total = total' })

  unfoldable pub stream_within :
      (limit : ℕ) → Source → (destination : String) → Files → (total : ℕ) → Outcome
  unfolding stream store open_exclusive refuse
  stream_within limit (reader reads) destination files total =
      open_exclusive destination files total (stream limit reads [] total)
  stream_within limit (blob bytes written) destination files total =
      if leb (length bytes) limit
      then open_exclusive destination files total (store bytes written total)
      else refuse file_too_large files total

  unfoldable pub stream_upload_to_path :
      Source → (destination : String) → Files → (total : ℕ) → Outcome
  unfolding stream_within refuse
  stream_upload_to_path source destination files total = elim settings.max_file_bytes [
    | err e ↦ refuse e files total
    | ok limit ↦ elim settings.chunk_bytes [
      | err e ↦ refuse e files total
      | ok size ↦ stream_within limit source destination files total
    ]
  ]
