-- ===== src/UploadPolicy/Limits.antt =====
-- What an upload leaves, whatever the source does, and what a request's uploads take together.
use breach_scope.Prelude.{
  ℕ, ◌+◌, ◌≤◌, String, ◌≡◌, refl, sym, ap, subst, ◌∙◌, ◌⊎◌, inl, inr, Bool, true, false, Option,
  none, some, List, [], ◌∷◌, ◌++◌, ◌==◌, eq_refl, arith, leb, leb→le, length, length-append,
  Bool-cases,
}
use mathlib.Core.List.{append-nil, append_assoc}
use breach_scope.Prelude.Dict.{find, put, pop}
use breach_scope.Prelude.Result.{Result, ok, err, >>=-eq-ok, guard_then-eq-ok, ok-injective}
use breach_scope.UploadPolicy.{
  Bytes, Files, UploadError, total_too_large, file_too_large, file_exists, Settings, Read, chunk,
  failure, Progress, Outcome, Source, reader, blob, add, after_add, stream, store, close, refuse,
  open_exclusive, stream_within, stream_upload_to_path,
}

-- What a reader gives, up to its end.
abbrev pub bytes_of : List Read → Bytes
bytes_of [] = []
bytes_of (failure ∷ reads) = []
bytes_of (chunk [] written ∷ reads) = []
bytes_of (chunk (b ∷ bytes) written ∷ reads) = (b ∷ bytes) ++ bytes_of reads

abbrev pub content_of : Source → Bytes
content_of (reader reads) = bytes_of reads
content_of (blob bytes written) = bytes

pop-put :
    {V : Type 0} (key : String) (v : V) (d : List (String × V))
    → find key d ≡ none
    → pop key (put key v d) ≡ d
unfolding find put pop
pop-put key v [] h = rw (eq_refl key) refl
pop-put {V} key v ((k, w) ∷ rest) h = elim (Bool-cases (k == key)) [
  | inl hit ↦ cc (rw hit at h)
  | inr miss ↦
      rw miss
        (rw miss (ap (λ (r : List (String × V)). (k, w) ∷ r) (pop-put key v rest (rw miss at h))))
]

-- The budget stays as it was, or within the limit.
abbrev pub IsWithin : Settings → (before after : ℕ) → Type 0
IsWithin settings before after =
    (after ≡ before) ⊎ (limit : ℕ) × (settings.max_total_bytes ≡ ok limit) × (after ≤ limit)

module _ (settings : Settings) where
  add-eq-ok :
      (amount total : ℕ) {total' : ℕ}
      → add settings amount total ≡ ok total'
      → (total' ≡ total + amount) × IsWithin settings total total'
  unfolding add
  add-eq-ok amount total h =
      let (limit, e, h1) = >>=-eq-ok settings.max_total_bytes _ h in
      let (small, h2) = guard_then-eq-ok (leb (total + amount) limit) total_too_large _ h1 in
      let same : total + amount ≡ _ = ok-injective {E = UploadError} h2 in
      (
        sym same,
        inr (limit, e, subst (λ (n : ℕ). n ≤ limit) same (leb→le (total + amount) limit small)),
      )

  -- How a loop that started with this content and budget may end, if `rest` is still to come.
  abbrev IsProgress : (limit : ℕ) → (content rest : Bytes) → (total : ℕ) → Progress → Type 0
  IsProgress limit content rest total p =
      (total ≤ p.total)
      × IsWithin settings total p.total
      × ((n : ℕ)
          → p.result ≡ ok n
          → (p.content ≡ content ++ rest)
            × (n ≡ length p.content)
            × (p.total ≡ total + length rest)
            × (n ≤ limit))

  IsWithin-trans :
      (a b c : ℕ) → IsWithin settings a b → IsWithin settings b c → IsWithin settings a c
  IsWithin-trans a b c h (inr k) = inr k
  IsWithin-trans a b c h (inl e) = subst (IsWithin settings a) (sym e) h

  after_add-IsProgress :
      (limit : ℕ) (bytes rest content : Bytes) (written : Bool) (total : ℕ)
      (continue : Bytes → ℕ → Progress)
      → ((total' : ℕ)
          → IsProgress limit (content ++ bytes) rest total' (continue (content ++ bytes) total'))
      → IsProgress limit content
          (bytes ++ rest)
          total
          (after_add bytes written content total (add settings (length bytes) total) continue)
  unfolding after_add
  after_add-IsProgress limit bytes rest content written total continue h =
      go (add settings (length bytes) total) written refl
    where
      go :
          (r : Result UploadError ℕ) (w : Bool)
          → add settings (length bytes) total ≡ r
          → IsProgress limit content
              (bytes ++ rest)
              total
              (after_add bytes w content total r continue)
      go (err e) w f = (omega arith, inl refl, λ n k. cc)
      go (ok total') true f =
          let (same, within) = add-eq-ok (length bytes) total f in
          let (more, within', done) = h total' in
          (
            omega (arith, same, more),
            IsWithin-trans total total' _ within within',
            λ n k.
                let (a, b, c, d) = done n k in
                (
                  a ∙ append_assoc content bytes rest,
                  b,
                  omega (arith, c, same, length-append bytes rest),
                  d,
                ),
          )
      go (ok total') false f =
          let (same, within) = add-eq-ok (length bytes) total f in
          (omega (arith, same), within, λ n k. cc)

  stream-IsProgress :
      (limit : ℕ) (reads : List Read) (content : Bytes) (total : ℕ)
      → length content ≤ limit
      → IsProgress limit content (bytes_of reads) total (stream settings limit reads content total)
  unfolding stream
  stream-IsProgress limit [] content total h = (
    omega arith,
    inl refl,
    λ n k. (
      sym (append-nil content),
      sym (ok-injective {E = UploadError} k),
      omega arith,
      omega (arith, h, ok-injective {E = UploadError} k),
    ),
  )
  stream-IsProgress limit (failure ∷ reads) content total h = (omega arith, inl refl, λ n k. cc)
  stream-IsProgress limit (chunk [] written ∷ reads) content total h = (
    omega arith,
    inl refl,
    λ n k. (
      sym (append-nil content),
      sym (ok-injective {E = UploadError} k),
      omega arith,
      omega (arith, h, ok-injective {E = UploadError} k),
    ),
  )
  stream-IsProgress limit (chunk (b ∷ bytes) written ∷ reads) content total h =
      elim (Bool-cases (leb (length content + length (b ∷ bytes)) limit)) [
        | inl fits ↦ rw fits (
            after_add-IsProgress limit (b ∷ bytes) (bytes_of reads) content written total
              (λ c t. stream settings limit reads c t)
              (λ total'.
                stream-IsProgress limit reads (content ++ b ∷ bytes) total'
                  (omega (arith, length-append content (b ∷ bytes), leb→le _ _ fits))))
        | inr over ↦ rw over (omega arith, inl refl, λ n k. cc)
      ]

  store-IsProgress :
      (limit : ℕ) (bytes : Bytes) (written : Bool) (total : ℕ)
      → length bytes ≤ limit
      → IsProgress limit [] bytes total (store settings bytes written total)
  unfolding store
  store-IsProgress limit bytes written total h =
      subst (λ (rest : Bytes). IsProgress limit [] rest total (store settings bytes written total))
        (append-nil bytes)
        (after_add-IsProgress limit bytes [] [] written total
          (λ content total'. record {
            result = ok (length bytes);
            content = content;
            total = total';
          })
          (λ total'. (
            omega arith,
            inl refl,
            λ n k. (
              sym (append-nil bytes),
              sym (ok-injective {E = UploadError} k),
              omega arith,
              omega (arith, h, ok-injective {E = UploadError} k),
            ),
          )))

  -- An upload of `bytes` either fails and changes no file, or adds one that was not there, whole. The
  -- budget only grows, and stays as it was or within its limit.
  abbrev pub IsAllOrNothing :
      (limit : ℕ) → Bytes → (destination : String) → Files → (total : ℕ) → Outcome → Type 0
  IsAllOrNothing limit bytes destination files total o =
      ((e : UploadError) → o.result ≡ err e → o.files ≡ files)
      × ((n : ℕ)
          → o.result ≡ ok n
          → (find destination files ≡ none)
            × (o.files ≡ put destination bytes files)
            × (n ≡ length bytes)
            × (o.total ≡ total + n)
            × (n ≤ limit))
      × (total ≤ o.total)
      × IsWithin settings total o.total

  refuse-IsAllOrNothing :
      (limit : ℕ) (bytes : Bytes) (destination : String) (files : Files) (total : ℕ)
      (e : UploadError)
      → IsAllOrNothing limit bytes destination files total (refuse e files total)
  unfolding refuse
  refuse-IsAllOrNothing limit bytes destination files total e =
      ((λ x h. refl), (λ n h. cc), omega arith, inl refl)

  close-IsAllOrNothing :
      (limit : ℕ) (bytes : Bytes) (destination : String) (files : Files) (total : ℕ)
      (result : Result UploadError ℕ) (content : Bytes) (total' : ℕ)
      → find destination files ≡ none
      → IsProgress limit [] bytes total
          (record { result = result; content = content; total = total' })
      → IsAllOrNothing limit bytes destination files total
          (close destination files (record { result = result; content = content; total = total' }))
  unfolding close
  close-IsAllOrNothing limit bytes destination files total (err e) content total' new
        (more, within, done) =
      ((λ x h. pop-put destination content files new), (λ n h. cc), more, within)
  close-IsAllOrNothing limit bytes destination files total (ok n) content total' new
        (more, within, done) =
      let (a, b, c, d) = done n refl in
      (
        (λ x h. cc),
        (λ m h.
            let same : n ≡ m = ok-injective {E = UploadError} h in
            let size : n ≡ length bytes = b ∙ ap length a in
            (
              new,
              ap (λ (z : Bytes). put destination z files) a,
              sym same ∙ size,
              omega (arith, c, size, same),
              omega (arith, d, same),
            )),
        more,
        within,
      )

  open_exclusive-IsAllOrNothing :
      (limit : ℕ) (bytes : Bytes) (destination : String) (files : Files) (total : ℕ) (p : Progress)
      → IsProgress limit [] bytes total p
      → IsAllOrNothing limit bytes destination files total
          (open_exclusive destination files total p)
  unfolding open_exclusive
  open_exclusive-IsAllOrNothing limit bytes destination files total p h =
      go (find destination files) refl
    where
      go :
          (o : Option Bytes)
          → find destination files ≡ o
          → IsAllOrNothing limit bytes destination files total
              (elim o as (λ (x : Option Bytes). Outcome) [
                | some _ ↦ refuse file_exists files total
                | none ↦ close destination files p
              ])
      go (some there) e = refuse-IsAllOrNothing limit bytes destination files total file_exists
      go none e =
          close-IsAllOrNothing limit bytes destination files total p.result p.content p.total e h

  stream_within-IsAllOrNothing :
      (limit : ℕ) (source : Source) (destination : String) (files : Files) (total : ℕ)
      → IsAllOrNothing limit
          (content_of source)
          destination
          files
          total
          (stream_within settings limit source destination files total)
  unfolding stream_within
  stream_within-IsAllOrNothing limit (reader reads) destination files total =
      open_exclusive-IsAllOrNothing limit (bytes_of reads) destination files total
        (stream settings limit reads [] total)
        (stream-IsProgress limit reads [] total (omega arith))
  stream_within-IsAllOrNothing limit (blob bytes written) destination files total =
      elim (Bool-cases (leb (length bytes) limit)) [
        | inl fits ↦ rw fits (
            open_exclusive-IsAllOrNothing limit bytes destination files total
              (store settings bytes written total)
              (store-IsProgress limit bytes written total (leb→le _ _ fits)))
        | inr over ↦
            rw over (refuse-IsAllOrNothing limit bytes destination files total file_too_large)
      ]

  -- Under a limit on files that can be read, an upload either fails and leaves every file as it was, with
  -- no part of a new one, or adds exactly the bytes of its source at a path where there was no file, and
  -- returns their number, which is within the limit and which the budget grows by. The budget never
  -- shrinks, and if it changes it is within the limit of the request.
  pub upload-IsAllOrNothing :
      (source : Source) (destination : String) (files : Files) (total limit : ℕ)
      → settings.max_file_bytes ≡ ok limit
      → IsAllOrNothing limit
          (content_of source)
          destination
          files
          total
          (stream_upload_to_path settings source destination files total)
  unfolding stream_upload_to_path
  upload-IsAllOrNothing source destination files total limit h = rw h (go settings.chunk_bytes)
    where
      go :
          (r : Result UploadError ℕ)
          → IsAllOrNothing limit
              (content_of source)
              destination
              files
              total
              (elim r as (λ (x : Result UploadError ℕ). Outcome) [
                | err e ↦ refuse e files total
                | ok size ↦ stream_within settings limit source destination files total
              ])
      go (err e) = refuse-IsAllOrNothing limit (content_of source) destination files total e
      go (ok size) = stream_within-IsAllOrNothing limit source destination files total
