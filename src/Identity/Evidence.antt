-- ===== src/Identity/Evidence.antt =====
-- The flags of a user against the answers of the provider.
use offimesh.Prelude.{
  ℕ, ◌≡◌, refl, ◌∙◌, subst, Bool, true, ◌&&◌, ◌||◌, some, List, [], ◌∷◌, ◌==◌, if◌then◌else◌, find,
  key-find, filter_by, Bool-cases, Option-cases, inl, inr, ◌⊎◌, arith,
}
use offimesh.Exceptions.{
  Result, ok, err, Error, validation, not_found, no_verified_id, unknown_id_type, session_aborted,
  multiple_results_found, session,
}
use offimesh.Models.{
  Db, User, user_key, IdType, nin, bvn, other_id, IdentityVerification, identity_face_verified,
}
use offimesh.Identity.{
  ProviderAnswer, answered, provider_raised, flush_in_try, save_user, save_verification,
  initiate_verification, start_verification, is_verified_of, one_verification, apply_face,
  verify_face,
}
use offimesh.Identity.Flags.{
  Flag, nin_flag, bvn_flag, face_flag, flag_of, has_flag, IdentityCall, initiates, compares_face,
  perform, update_of, grants, any_of, is_face, is_on_record, IsGrounded, raises, has_flag-replace,
  ended, no_flags, apply_answer-IsGrounded,
}

face_flags :
    (f : Flag) (u : User) (b : Bool)
    → flag_of f (if b then record u { face_verified = true } else u)
      ≡ (flag_of f u || (b && is_face f))
face_flags nin_flag u b = ground arith
face_flags bvn_flag u b = ground arith
face_flags face_flag u b = ground arith

face_id : (u : User) (b : Bool) → (if b then record u { face_verified = true } else u).id ≡ u.id
face_id u b = ground arith

apply_face-IsGrounded :
    (u : User) (v : IdentityVerification) (i : ℕ) (t : IdType) (answer : ProviderAnswer)
    (updated : Result (Unit {0})) (now : ℕ) (db : Db)
    → find user_key i db.users ≡ some u
    → any_of (is_verified_of i t) db.verifications ≡ true
    → IsGrounded
        (compares_face i t answer updated now)
        db
        (ended db identity_face_verified v.id (apply_face u v answer updated now db))
unfolding apply_face flush_in_try save_user save_verification
apply_face-IsGrounded u v i t provider_raised (err x) now db e h = raises _ db x
apply_face-IsGrounded u v i t (answered r) (err x) now db e h = raises _ db session_aborted
apply_face-IsGrounded u v i t provider_raised (ok _) now db e h = record {
  settles = inr (refl, h, λ j f. no_flags (has_flag f j db.users) (i == j));
}
apply_face-IsGrounded u v i t (answered r) (ok _) now db e h = record {
  settles = inr (
    refl,
    h,
    λ j f.
        has_flag-replace f j i u (if r.verified then record u { face_verified = true } else u)
          (r.verified && is_face f) db.users e
          (face_id u r.verified ∙ key-find user_key i db.users u e) (face_flags f u r.verified),
  );
}

-- What a filter finds is in the list.
filter-any_of :
    (p : IdentityVerification → Bool) (v : IdentityVerification)
    (rest vs : List IdentityVerification)
    → filter_by p vs ≡ v ∷ rest
    → any_of p vs ≡ true
filter-any_of p v rest [] e = absurd (ground arith)
filter-any_of p v rest (x ∷ vs) e = elim (Bool-cases (p x)) [
  | inl hit ↦ ground arith
  | inr miss ↦ ground (arith, filter-any_of p v rest vs (ground arith))
]

-- None, one, or more.
list_cases :
    (xs : List IdentityVerification)
    → (xs ≡ [])
      ⊎ ((v : IdentityVerification) × (xs ≡ v ∷ []))
      ⊎ ((v : IdentityVerification) × (w : IdentityVerification) × (rest : List
            IdentityVerification)
          × (xs ≡ v ∷ w ∷ rest))
list_cases [] = inl refl
list_cases (v ∷ []) = inr (inl (v, refl))
list_cases (v ∷ w ∷ xs) = inr (inr (v, w, xs, refl))

verify_face-IsGrounded :
    (i : ℕ) (t : IdType) (answer : ProviderAnswer) (updated : Result (Unit {0})) (now : ℕ) (db : Db)
    → IsGrounded
        (compares_face i t answer updated now)
        db
        (session (verify_face i t answer updated now) db)
unfolding verify_face one_verification
verify_face-IsGrounded i t answer updated now db = elim (Option-cases (find user_key i db.users)) [
  | inl missing ↦ rw missing (raises _ db not_found)
  | inr (u, e) ↦
      let own = key-find user_key i db.users u e in
      elim (list_cases (filter_by (is_verified_of u.id t) db.verifications)) [
        | inl nothing ↦ rw e (rw nothing (raises _ db (validation no_verified_id)))
        | inr (inl (v, f)) ↦ rw e (
            rw f (
              apply_face-IsGrounded u v i t answer updated now db e (
                filter-any_of (is_verified_of i t) v [] db.verifications
                  (subst (λ n. filter_by (is_verified_of n t) db.verifications ≡ v ∷ []) own f))))
        | inr (inr (v, w, rest, f)) ↦ rw e (rw f (raises _ db multiple_results_found))
      ]
]

initiate_verification-IsGrounded :
    (i : ℕ) (t : IdType) (answer : ProviderAnswer) (updated : Result (Unit {0})) (id now : ℕ)
    (db : Db)
    → IsGrounded
        (initiates i t answer updated id now)
        db
        (session (initiate_verification i t answer updated id now) db)
unfolding initiate_verification start_verification
initiate_verification-IsGrounded i (other_id n) answer updated id now db =
    raises _ db (validation unknown_id_type)
initiate_verification-IsGrounded i nin answer updated id now db =
    elim (Option-cases (find user_key i db.users)) [
      | inl missing ↦ rw missing (raises _ db not_found)
      | inr (u, e) ↦ rw e (apply_answer-IsGrounded u i nin answer updated id now db e)
    ]
initiate_verification-IsGrounded i bvn answer updated id now db =
    elim (Option-cases (find user_key i db.users)) [
      | inl missing ↦ rw missing (raises _ db not_found)
      | inr (u, e) ↦ rw e (apply_answer-IsGrounded u i bvn answer updated id now db e)
    ]

perform-IsGrounded : (call : IdentityCall) (db : Db) → IsGrounded call db (perform call db)
unfolding perform
perform-IsGrounded (initiates i t answer updated id now) db =
    initiate_verification-IsGrounded i t answer updated id now db
perform-IsGrounded (compares_face i t answer updated now) db =
    verify_face-IsGrounded i t answer updated now db

-- A verification of a document or a comparison of faces, run in its session, either raises and leaves
-- the tables, as it always does where the database refuses the UPDATE of the record, or the database
-- has taken the UPDATE; and then exactly the flag that the answer of the provider gives is set, if
-- any: to the user of the call that of the document, if the provider confirmed it, or that of the
-- face, if it matched, and every other flag of every user is as before. A confirmed document has a
-- verified record of the user afterwards, and the face was compared with such a record.
pub perform-grants :
    (call : IdentityCall) (db : Db)
    → let (r, db') = perform call db in
      ((e : Error) × (perform call db ≡ (err e, db)))
      ⊎ ((update_of call ≡ ok tt)
          × (is_on_record call db db' ≡ true)
          × ((j : ℕ) (f : Flag)
              → has_flag f j db'.users ≡ (has_flag f j db.users || grants call j f)))
perform-grants call db = (perform-IsGrounded call db).settles

-- A user who has verified the same kind of document twice can never verify the face: with two or
-- more verified records of the kind, the call raises whatever the provider would answer, and changes
-- nothing.
pub verify_face_twice :
    (i : ℕ) (t : IdType) (answer : ProviderAnswer) (updated : Result (Unit {0})) (now : ℕ) (db : Db)
    (u : User) (v w : IdentityVerification) (rest : List IdentityVerification)
    → find user_key i db.users ≡ some u
    → filter_by (is_verified_of u.id t) db.verifications ≡ v ∷ w ∷ rest
    → verify_face i t answer updated now db ≡ (err multiple_results_found, db)
unfolding verify_face one_verification
verify_face_twice i t answer updated now db u v w rest e f = rw e (rw f refl)
