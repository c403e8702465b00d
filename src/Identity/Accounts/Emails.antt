-- ===== src/Identity/Accounts/Emails.antt =====
-- One account for an email, however it is spelt: the index and the users agree in every state that is
-- reached from an empty manager or from stored users whose emails are normalised.
use xira_net.Common.{
  ◌≡◌, refl, sym, ap, ◌∙◌, subst, inl, inr, Bool, true, false, Option, none, some, List, [], ◌∷◌,
  arith, Dict, get, modify, get-insert_self, get-insert_other, inserted, get-insert_fresh,
  get-modify, Text, ◌==◌, All, if◌then◌else◌, Bool-cases, Option-cases, is_some, some_inj, nat_eq,
  text_eq,
}
use mathlib.Core.Option
use xira_net.Identity.Accounts.{
  User, UserManager, new, normalize_email, register, add_user, load_from, load,
}
use xira_net.Identity.Accounts.Profile.{with_user, if_found}

-- Each email of the index leads to a user of that email, and each user stands in it under its own id.
pub record Inv (m : UserManager) : Type 0 where
  pub indexed :
      (k id : Text)
      → get k m.email_index ≡ some id
      → (u : User) × (get id m.users ≡ some u) × (normalize_email u.email ≡ k)
  pub listed :
      (id : Text) (u : User)
      → get id m.users ≡ some u
      → (get (normalize_email u.email) m.email_index ≡ some id) × (u.id ≡ id)

-- An update that keeps the id and the email.
abbrev pub Keeps : (User → User) → Type 0
Keeps f = (u : User) → ((f u).id ≡ u.id) × ((f u).email ≡ u.email)

pub new-Inv : Inv new
unfolding get
new-Inv = record {
  indexed = λ k id h. absurd (ground (arith, h));
  listed = λ id u h. absurd (ground (arith, h));
}

abbrev Same : User → User → Type 0
Same u v = (u.id ≡ v.id) × (u.email ≡ v.email)

forward :
    (id j : Text) (f : User → User) (us : Dict Text User) (v : User)
    → Keeps f
    → get j us ≡ some v
    → (w : User) × (get j (modify id f us) ≡ some w) × Same w v
forward id j f us v k h = elim (Bool-cases (id == j)) [
  | inl e ↦ (f v, get-modify id j f us ∙ rw e (rw h refl), k v)
  | inr n ↦ (v, get-modify id j f us ∙ rw n h, (refl, refl))
]

picked :
    (b : Bool) (o : Option User) (f : User → User) (w : User)
    → Keeps f
    → (if b then Option.map f o else o) ≡ some w
    → (v : User) × (o ≡ some v) × Same w v
picked true none f w k h = absurd (ground (arith, h))
picked false none f w k h = absurd (ground (arith, h))
picked true (some v) f w k h = (v, refl, subst (λ x. Same x v) (some_inj h) (k v))
picked false (some v) f w k h = (v, refl, subst (λ x. Same x v) (some_inj h) (refl, refl))

backward :
    (id j : Text) (f : User → User) (us : Dict Text User) (w : User)
    → Keeps f
    → get j (modify id f us) ≡ some w
    → (v : User) × (get j us ≡ some v) × Same w v
backward id j f us w k h = picked (id == j) (get j us) f w k (sym (get-modify id j f us) ∙ h)

pub with_user-Inv :
    (id : Text) (f : User → User) (m : UserManager) → Keeps f → Inv m → Inv (with_user id f m)
with_user-Inv id f m k inv = record {
  indexed = λ key i h.
      let r = inv.indexed key i h in
      let w = forward id i f m.users r.0 k r.1 in (w.0, w.1, ap normalize_email w.2.1 ∙ r.2);
  listed = λ i w h.
      let v = backward id i f m.users w k h in
      let r = inv.listed i v.0 v.1 in (rw v.2.1 r.0, v.2.0 ∙ r.1);
}

pub if_found-Inv :
    (id : Text) (f : User → User) (m : UserManager) → Keeps f → Inv m → Inv (if_found id f m).1
if_found-Inv id f m k inv = elim (Bool-cases (is_some (get id m.users))) [
  | inl e ↦ rw e (with_user-Inv id f m k inv)
  | inr n ↦ rw n inv
]

-- The index and the users of a manager with one user more.
pub add_user-Inv :
    (user : User) (m : UserManager)
    → get user.id m.users ≡ none
    → get (normalize_email user.email) m.email_index ≡ none
    → Inv m
    → Inv (add_user (normalize_email user.email) user m)
add_user-Inv user m fresh free inv = record {
  indexed = λ k id h. elim (inserted (normalize_email user.email) k user.id id m.email_index h) [
    | inl e ↦ (user, rw (sym e.1) (get-insert_self user.id user m.users), e.0)
    | inr old ↦
        let r = inv.indexed k id old.1 in
        (r.0, get-insert_fresh user.id id user r.0 m.users fresh r.1, r.2)
  ];
  listed = λ id u h. elim (inserted user.id id user u m.users h) [
    | inl e ↦ (
      rw (sym e.1)
          (rw (sym e.0) (get-insert_self (normalize_email user.email) user.id m.email_index)),
      rw (sym e.1) e.0,
    )
    | inr old ↦
        let r = inv.listed id u old.1 in
        (
          get-insert_fresh (normalize_email user.email) (normalize_email u.email) user.id id
              m.email_index free r.0,
          r.1,
        )
  ];
}

pub register-Inv :
    (user : User) (m : UserManager) → get user.id m.users ≡ none → Inv m → Inv (register user m).1
unfolding register
register-Inv user m fresh inv =
    elim (Option-cases (get (normalize_email user.email) m.email_index)) [
      | inl free ↦ rw free (add_user-Inv user m fresh free inv)
      | inr (id, e) ↦ rw e inv
    ]

-- The rows of a table of users: the ids differ, and so do the emails, which are written as they are looked up.
abbrev pub AreStored : List User → Type 0
AreStored [] = Unit
AreStored (u ∷ us) =
    (normalize_email u.email ≡ u.email)
    × All (λ v. ((u.id == v.id) ≡ false) × ((u.email == v.email) ≡ false)) us
    × AreStored us

-- The manager has neither the ids nor the emails yet.
abbrev AreNew : UserManager → List User → Type 0
AreNew m us = All (λ v. (get v.id m.users ≡ none) × (get v.email m.email_index ≡ none)) us

AreNew-add_user :
    (u : User) (m : UserManager) (us : List User)
    → AreNew m us
    → All (λ v. ((u.id == v.id) ≡ false) × ((u.email == v.email) ≡ false)) us
    → AreNew (add_user u.email u m) us
AreNew-add_user u m [] fresh apart = tt
AreNew-add_user u m (v ∷ us) fresh apart = (
  (
    get-insert_other u.id v.id u m.users apart.0.0 ∙ fresh.0.0,
    get-insert_other u.email v.email u.id m.email_index apart.0.1 ∙ fresh.0.1,
  ),
  AreNew-add_user u m us fresh.1 apart.1,
)

load_from-Inv :
    (stored : List User) (m : UserManager)
    → AreStored stored
    → AreNew m stored
    → Inv m
    → Inv (load_from stored m)
unfolding load_from
load_from-Inv [] m h fresh inv = inv
load_from-Inv (u ∷ us) m h fresh inv =
    load_from-Inv us (add_user u.email u m) h.2 (AreNew-add_user u m us fresh.1 h.1) (
      subst (λ k. Inv (add_user k u m)) h.0
        (add_user-Inv u m fresh.0.0 (ap (λ k. get k m.email_index) h.0 ∙ fresh.0.1) inv))

AreNew-new : (us : List User) → AreNew new us
unfolding get
AreNew-new [] = tt
AreNew-new (u ∷ us) = ((refl, refl), AreNew-new us)

pub load-Inv : (stored : List User) → AreStored stored → Inv (load stored)
unfolding load
load-Inv stored h = load_from-Inv stored new h (AreNew-new stored) new-Inv
