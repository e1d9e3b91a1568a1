-- ===== src/Identity/Flags.antt =====
-- The flags of a user, what a call gives, and the verification of a document.
use offimesh.Prelude.{
  ℕ, ◌≡◌, refl, ◌∙◌, sym, subst, Bool, true, false, not, ◌&&◌, ◌||◌, some, none, List, [], ◌∷◌,
  ◌==◌, find, replace, find-replace_self, find-replace_ne, key-find, Bool-cases, inl, inr, ◌⊎◌,
  arith,
}
use offimesh.Exceptions.{
  Result, ok, err, Error, session_aborted, commit_or_rollback, continue, pure, ◌>>◌, session,
}
use offimesh.Models.{
  Db, User, user_key, IdType, nin, bvn, other_id, IdentityVerification, verification_key, audit,
  AuditAction, identity_initiated,
}
use offimesh.Identity.{
  ProviderResult, ProviderAnswer, answered, provider_raised, new_verification, identified, judged,
  flush_in_try, save_user, save_verification, initiate_verification, apply_answer, same_type,
  is_verified_of, verify_face,
}

pub data Flag : Type 0 where
  nin_flag bvn_flag face_flag : Flag

abbrev pub flag_of : Flag → User → Bool
flag_of nin_flag u = u.nin_verified
flag_of bvn_flag u = u.bvn_verified
flag_of face_flag u = u.face_verified

unfoldable pub has_flag : Flag → ℕ → List User → Bool
has_flag f j us = elim (find user_key j us) [ none ↦ false | some u ↦ flag_of f u ]

-- The two calls that set flags, with the answers of the provider and of the database to the UPDATE.
pub data IdentityCall : Type 0 where
  initiates : ℕ → IdType → ProviderAnswer → Result (Unit {0}) → ℕ → ℕ → IdentityCall
  compares_face : ℕ → IdType → ProviderAnswer → Result (Unit {0}) → ℕ → IdentityCall

unfoldable pub perform : IdentityCall → Db → Result IdentityVerification × Db
perform (initiates i t answer updated id now) =
    session (initiate_verification i t answer updated id now)
perform (compares_face i t answer updated now) = session (verify_face i t answer updated now)

abbrev pub update_of : IdentityCall → Result (Unit {0})
update_of (initiates _ _ _ updated _ _) = updated
update_of (compares_face _ _ _ updated _) = updated

abbrev pub document_flag : IdType → Flag → Bool
document_flag nin nin_flag = true
document_flag nin bvn_flag = false
document_flag nin face_flag = false
document_flag bvn nin_flag = false
document_flag bvn bvn_flag = true
document_flag bvn face_flag = false
document_flag (other_id _) f = false

abbrev pub is_face : Flag → Bool
is_face nin_flag = false
is_face bvn_flag = false
is_face face_flag = true

abbrev pub is_confirmed : ProviderAnswer → Bool
is_confirmed provider_raised = false
is_confirmed (answered r) = r.success && r.verified

abbrev pub is_matched : ProviderAnswer → Bool
is_matched provider_raised = false
is_matched (answered r) = r.verified

-- The flags that the answer of the provider gives: to the user of the call that of the document if it
-- is confirmed, or that of the face if it matches.
abbrev pub grants : IdentityCall → ℕ → Flag → Bool
grants (initiates i t answer _ _ _) j f = i == j && (is_confirmed answer && document_flag t f)
grants (compares_face i t answer _ _) j f = i == j && (is_matched answer && is_face f)

abbrev pub any_of {ℓ} : {A : Type ℓ} → (A → Bool) → List A → Bool
any_of p [] = false
any_of p (x ∷ xs) = p x || any_of p xs

-- A confirmed document has a verified record of the user afterwards, and a face is compared only with
-- a verified record of the user from before.
abbrev pub is_on_record : IdentityCall → Db → Db → Bool
is_on_record (initiates i t answer _ _ _) db db' =
    not (is_confirmed answer) || any_of (is_verified_of i t) db'.verifications
is_on_record (compares_face i t _ _ _) db db' = any_of (is_verified_of i t) db.verifications

pub record IsGrounded (call : IdentityCall) (db : Db) (run : Result IdentityVerification × Db)
    : Type 0 where
  pub settles :
      ((e : Error) × (run ≡ (err e, db)))
      ⊎ ((update_of call ≡ ok tt)
          × (is_on_record call db run.1 ≡ true)
          × ((j : ℕ) (f : Flag)
              → has_flag f j run.1.users ≡ (has_flag f j db.users || grants call j f)))

pub raises : (call : IdentityCall) (db : Db) (e : Error) → IsGrounded call db (err e, db)
raises call db e = record { settles = inl (e, refl) }

-- A user who is stored with more flags.
pub has_flag-replace :
    (f : Flag) (j i : ℕ) (u w : User) (b : Bool) (us : List User)
    → find user_key i us ≡ some u
    → w.id ≡ i
    → flag_of f w ≡ (flag_of f u || b)
    → has_flag f j (replace user_key w us) ≡ (has_flag f j us || (i == j && b))
unfolding has_flag
has_flag-replace f j i u w b us e k h = elim (Bool-cases (i == j)) [
  | inl hit ↦
      let own : i ≡ j = ground arith in
      let found : find user_key w.id (replace user_key w us) ≡ some w =
        find-replace_self user_key w us u (subst (λ n. find user_key n us ≡ some u) (sym k) e) in
      let new = subst (λ n. find user_key n (replace user_key w us) ≡ some w) (k ∙ own) found in
      let old = subst (λ n. find user_key n us ≡ some u) own e in rw (has_flag, new, old, hit) h
  | inr miss ↦
      let other = find-replace_ne user_key j w us (ground arith) in
      rw (has_flag, other, miss) (ground arith)
]

flag_of-identified :
    (t : IdType) (r : ProviderResult) (u : User) (f : Flag)
    → flag_of f (identified t r u) ≡ (flag_of f u || (r.verified && document_flag t f))
unfolding identified
flag_of-identified nin r u f = ground arith
flag_of-identified bvn r u f = ground arith
flag_of-identified (other_id _) r u f = ground arith

-- What follows the update of the record in a call, and the end of its session.
abbrev pub ended :
    Db → AuditAction → ℕ → Result IdentityVerification × Db → Result IdentityVerification × Db
ended db action id run =
    commit_or_rollback db (continue run.0 (λ done. audit action id >> pure done) run.1)

user_id-identified : (t : IdType) (r : ProviderResult) (u : User) → (identified t r u).id ≡ u.id
unfolding identified
user_id-identified nin r u = ground arith
user_id-identified bvn r u = ground arith
user_id-identified (other_id _) r u = ground arith

pub no_flags : (b c : Bool) → b ≡ (b || (c && false))
no_flags b c = ground arith

same_type_refl : (t : IdType) → same_type t t ≡ true
same_type_refl nin = refl
same_type_refl bvn = refl
same_type_refl (other_id n) = ground arith

judged_on_record :
    (i : ℕ) (t : IdType) (r : ProviderResult) (u : User) (id now : ℕ)
    (vs : List IdentityVerification)
    → u.id ≡ i
    → (not r.verified
        || any_of (is_verified_of i t) (
            replace verification_key
              (judged r now (new_verification id u.id t now))
              (new_verification id u.id t now ∷ vs)))
      ≡ true
judged_on_record i t r u id now vs e = let s = same_type_refl t in ground arith

pub apply_answer-IsGrounded :
    (u : User) (i : ℕ) (t : IdType) (answer : ProviderAnswer) (updated : Result (Unit {0}))
    (id now : ℕ) (db : Db)
    → find user_key i db.users ≡ some u
    → let v = new_verification id u.id t now in
      IsGrounded (initiates i t answer updated id now) db (
        ended db identity_initiated id (
          apply_answer u v answer updated now (record db { verifications = v ∷ db.verifications })))
unfolding apply_answer flush_in_try save_user save_verification
apply_answer-IsGrounded u i t provider_raised (err x) id now db e = raises _ db x
apply_answer-IsGrounded u i t (answered r) (err x) id now db e = elim (Bool-cases r.success) [
  | inl good ↦ rw good (raises _ db session_aborted)
  | inr bad ↦ rw bad (raises _ db x)
]
apply_answer-IsGrounded u i t provider_raised (ok _) id now db e = record {
  settles = inr (refl, refl, λ j f. no_flags (has_flag f j db.users) (i == j));
}
apply_answer-IsGrounded u i t (answered r) (ok _) id now db e = elim (Bool-cases r.success) [
  | inl good ↦ rw good (record {
    settles = inr (
      refl,
      judged_on_record i t r u id now db.verifications (key-find user_key i db.users u e),
      λ j f.
          let r' = record r { success = true } in
          has_flag-replace f j i u (identified t r' u) (r.verified && document_flag t f) db.users e
            (user_id-identified t r' u ∙ key-find user_key i db.users u e)
            (flag_of-identified t r' u f),
    );
  })
  | inr bad ↦
      rw bad
        (record { settles = inr (refl, refl, λ j f. no_flags (has_flag f j db.users) (i == j)) })
]
