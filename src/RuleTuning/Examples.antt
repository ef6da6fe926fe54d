-- ===== src/RuleTuning/Examples.antt =====
-- The theorems at a file with one profile that two callers change.
use breach_scope.Prelude.{
  ◌+◌, String, ◌≡◌, ◌≢◌, ◌==◌, refl, true, false, inl, inr, List, [], ◌∷◌, arith, eq_iff, keep,
  member,
}
use breach_scope.Prelude.Text.{Unicode, strip, lstrip, rstrip, is_space, count_chars, split_on}
use breach_scope.Prelude.Dict.{find, put}
use breach_scope.Prelude.Rows.{find_row}
use breach_scope.Prelude.Result.{ok, err}
use breach_scope.RuleTuning.{
  ProfileError, Payload, Profile, PublicProfile, ProfileFile, stored, Draft, commas, absent,
  raw_values, rule_lookup, lookup_from, normalize_rule_ids, normalized_payload, normalize_name,
  normalize_description, overlap, scan_values, scan_value, scan_found, public_profile, get_profile,
}
use breach_scope.RuleTuning.RuleIds.{IsChoice, normalize_rule_ids-IsChoice}
use breach_scope.RuleTuning.Keeping.{
  Request, creation, change, removal, FileIsSound, perform, perform_all, perform_all-FileIsSound,
}
use breach_scope.RuleTuning.Store.{view, perform_all_on, perform_all_refines}
use breach_scope.RuleTuning.Concurrency.{one_winner}
use breach_scope.RuleTuning.ReadBack.{current_change}

abbrev plain : Unicode
plain = record { casefold = λ s. s; lower = λ s. s }

abbrev rules : List String
rules = "R1" ∷ "R2" ∷ []

normalize_rule_ids-IsChoice_example :
    IsChoice plain (rule_lookup plain rules) (raw_values (commas "R2, R1,R2")) ("R2" ∷ "R1" ∷ [])
unfolding normalize_rule_ids scan_values scan_value scan_found strip lstrip rstrip is_space split_on
    raw_values rule_lookup lookup_from find put member
normalize_rule_ids-IsChoice_example =
    normalize_rule_ids-IsChoice plain rules (commas "R2, R1,R2") refl

abbrev night : Payload
night = record { name = "night"; description = ""; rule_include = "R1" ∷ []; rule_exclude = [] }

abbrev first_profile : Profile
first_profile = record {
  profile_id = "rtp-1";
  version = 1;
  created_at = "t0";
  updated_at = "t0";
  updated_by = "ann";
  payload = night;
  revisions = record { version = 1; updated_at = "t0"; updated_by = "ann"; payload = night } ∷ [];
}

abbrev file : ProfileFile
file = stored (first_profile ∷ [])

abbrev day_draft : Draft
day_draft = record {
  name = " day ";
  description = "";
  rule_include = absent;
  rule_exclude = commas "R1,R2";
}

abbrev day : Payload
day = record { name = "day"; description = ""; rule_include = []; rule_exclude = "R1" ∷ "R2" ∷ [] }

differ : {a b : String} → (a == b) ≡ false → a ≢ b
differ {a} {b} h e = cc (h, (eq_iff a b).1 e)

file-IsSound : FileIsSound file
unfolding count_chars
file-IsSound = record {
  distinct = ((λ n. elim n [ ]), tt);
  kept = (
    record {
      payload = record {
        include_distinct = ((λ n. elim n [ ]), tt);
        exclude_distinct = tt;
        include_bounded = omega arith;
        exclude_bounded = omega arith;
        disjoint = λ id m k. elim k [ ];
        named = differ refl;
        name_bounded = omega arith;
        description_bounded = omega arith;
      };
      positive = omega arith;
      count = refl;
      run = (refl, tt);
      last = ([], refl);
    },
    tt,
  );
}

abbrev requests : List Request
requests =
    creation "rtp-2" "t1" day_draft "bob"
    ∷ change "t2" "rtp-1" 1 day_draft "bob"
    ∷ removal "rtp-1" 1
    ∷ []

perform_all-FileIsSound_example : FileIsSound (perform_all plain rules requests file)
perform_all-FileIsSound_example =
    perform_all-FileIsSound plain rules requests file
      ((λ m. elim m [ inl e ↦ differ refl e | inr n ↦ elim n [ ] ]), (tt, (tt, tt))) file-IsSound

perform_all_refines_example :
    view (perform_all plain rules requests file) ≡ perform_all_on plain rules requests (view file)
perform_all_refines_example =
    perform_all_refines plain rules requests file tt file-IsSound
      ((λ m. elim m [ inl e ↦ differ refl e | inr n ↦ elim n [ ] ]), (tt, (tt, tt)))

day_draft-payload : normalized_payload plain rules day_draft ≡ ok day
unfolding normalized_payload normalize_rule_ids scan_values scan_value scan_found strip lstrip
    rstrip is_space split_on raw_values rule_lookup lookup_from find put member normalize_name
    normalize_description overlap keep count_chars
day_draft-payload = refl

current_change_example :
    (reply : PublicProfile) × ((perform plain rules (change "t2" "rtp-1" 1 day_draft "bob") file).0
      ≡ ok reply)
    × (reply.profile_id ≡ "rtp-1")
    × (reply.version ≡ 1 + 1)
    × (reply.payload ≡ day)
    × (get_profile "rtp-1" (perform plain rules (change "t2" "rtp-1" 1 day_draft "bob") file).1
        ≡ ok reply)
    × ((other : String)
        → "rtp-1" ≢ other
        → get_profile other (perform plain rules (change "t2" "rtp-1" 1 day_draft "bob") file).1
          ≡ get_profile other file)
unfolding find_row
current_change_example =
    current_change plain rules "t2" "rtp-1" 1 day_draft "bob" file {old = night} tt refl
      day_draft-payload

removal-accepted :
    (perform plain rules (removal "rtp-1" 1) file).0 ≡ ok (public_profile true first_profile)
unfolding perform find_row
removal-accepted = refl

one_winner_example :
    (e : ProfileError) × (perform plain rules
        (change "t2" "rtp-1" 1 day_draft "bob")
        (perform plain rules (removal "rtp-1" 1) file).1
      ≡ (err e, (perform plain rules (removal "rtp-1" 1) file).1))
one_winner_example =
    one_winner plain rules (removal "rtp-1" 1) (change "t2" "rtp-1" 1 day_draft "bob") "rtp-1" 1
      file tt file-IsSound (refl, refl) (refl, refl) removal-accepted
