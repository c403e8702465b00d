-- ===== src/Registry/Prefixes.antt =====
-- Prefixes are unique and entries stand under their own ids, whatever is registered or removed.
use xira_net.Common.{
  ℕ, ◌≡◌, refl, sym, ◌∙◌, subst, ◌≢◌, inl, inr, true, none, some, List, [], ◌∷◌, arith, Dict,
  remove, insert, All-remove, find, Text, codes, starts_with, trim_end_matches, ◌==◌, list_eqb_iff,
  All, eqb_iff, Bool-cases, Option-cases, nat_eq, text_eq, nat_eq, text_eq,
}
use xira_net.Registry.{
  ServiceEntry, ServiceRegistry, ServiceRequest, new, entry_prefix, new_entry, advanced_entry,
  normalized_prefix, find_by_prefix, replace_existing, insert_entry, register, register_advanced,
  load_one, unregister,
}

abbrev Item : Type 0
Item = ℕ × ServiceEntry

abbrev pub Unlike : Text → Item → Type 0
Unlike p (k, e) = e.prefix ≢ p

-- Each entry stands under its id, and no two have one prefix.
abbrev pub IsUnique : Dict ℕ ServiceEntry → Type 0
IsUnique [] = Unit
IsUnique ((k, e) ∷ m) = (k ≡ e.id) × All (Unlike e.prefix) m × IsUnique m

remove-IsUnique : (k : ℕ) (m : Dict ℕ ServiceEntry) → IsUnique m → IsUnique (remove k m)
unfolding remove
remove-IsUnique k [] h = tt
remove-IsUnique k ((j, e) ∷ m) h =
    ground (arith, remove-IsUnique k m h.2, All-remove (Unlike e.prefix) k m h.1)

trim-cons : (c d : ℕ) (s : Text) → c ≢ d → trim_end_matches d (c ∷ s) ≡ c ∷ trim_end_matches d s
unfolding trim_end_matches
trim-cons c d s h = ground arith

trim-slash :
    (c d : ℕ) (s : Text) → c ≢ d → trim_end_matches d (d ∷ c ∷ s) ≡ d ∷ trim_end_matches d (c ∷ s)
unfolding trim_end_matches
trim-slash c d s h = ground arith

-- The prefix that a registration looks for is the one that it stores, unless it is empty: then
-- it looks for "/" and stores "".
pub normalized_prefix-entry_prefix :
    (p : Text)
    → (p ≢ [] → normalized_prefix p ≡ entry_prefix p)
      × (p ≡ [] → (normalized_prefix p ≡ codes "/") × (entry_prefix p ≡ []))
unfolding normalized_prefix entry_prefix starts_with trim_end_matches
normalized_prefix-entry_prefix [] = (λ h. absurd (h refl), λ h. (refl, refl))
normalized_prefix-entry_prefix (c ∷ p) = (λ h. ground (arith, trim-slash c b'/' p), λ h. cc)

find-Unlike :
    (p : Text) (m : Dict ℕ ServiceEntry) → find (λ e. e.prefix == p) m ≡ none → All (Unlike p) m
unfolding find
find-Unlike p [] h = tt
find-Unlike p ((k, e) ∷ m) h = ground (arith, find-Unlike p m, list_eqb_iff e.prefix p)

pub All-Unlike-prefix :
    (p q : Text) (m : Dict ℕ ServiceEntry) → p ≡ q → All (Unlike p) m → All (Unlike q) m
All-Unlike-prefix p q m e h = subst (λ r. All (Unlike r) m) e h

remove_found-Unlike :
    (p : Text) (m : Dict ℕ ServiceEntry) (found : ServiceEntry)
    → IsUnique m
    → find (λ e. e.prefix == p) m ≡ some found
    → All (Unlike p) (remove found.id m)
unfolding find remove
remove_found-Unlike p [] found h e = tt
remove_found-Unlike p ((k, x) ∷ m) found h e = elim (Bool-cases (x.prefix == p)) [
  | inl same ↦ ground (
    arith,
    list_eqb_iff x.prefix p,
    eqb_iff k found.id,
    All-remove (Unlike p) found.id m (here same),
  )
  | inr other ↦ ground (arith, list_eqb_iff x.prefix p, remove_found-Unlike p m found h.2)
]
  where
    here : (x.prefix == p) ≡ true → All (Unlike p) m
    here same = All-Unlike-prefix x.prefix p m ((list_eqb_iff x.prefix p).0 same) h.1

-- Where nothing with the prefix is left, a new entry keeps prefixes unique.
insert-IsUnique :
    (e : ServiceEntry) (m : Dict ℕ ServiceEntry)
    → IsUnique m
    → All (Unlike e.prefix) m
    → IsUnique (insert e.id e m)
unfolding insert
insert-IsUnique e m h a = (refl, All-remove (Unlike e.prefix) e.id m a, remove-IsUnique e.id m h)

pub replace_existing-IsUnique :
    (r : ServiceRegistry) (p : Text)
    → IsUnique r.services
    → IsUnique (replace_existing r p).services
      × All (Unlike (normalized_prefix p)) (replace_existing r p).services
unfolding replace_existing find_by_prefix
replace_existing-IsUnique r p h =
    elim (Option-cases (find (λ e. e.prefix == normalized_prefix p) r.services)) [
      | inl missing ↦ ground (arith, find-Unlike (normalized_prefix p) r.services)
      | inr (found, e) ↦ ground (
        arith,
        remove-IsUnique found.id r.services,
        remove_found-Unlike (normalized_prefix p) r.services found,
      )
    ]

register_entry-IsUnique :
    (r : ServiceRegistry) (p : Text) (e : ServiceEntry)
    → p ≢ []
    → e.prefix ≡ entry_prefix p
    → IsUnique r.services
    → IsUnique (insert_entry (replace_existing r p) e).services
unfolding insert_entry
register_entry-IsUnique r p e h same u =
    let (u', a) = replace_existing-IsUnique r p u in
    insert-IsUnique e (replace_existing r p).services u' (
      All-Unlike-prefix (normalized_prefix p) e.prefix (replace_existing r p).services
        ((normalized_prefix-entry_prefix p).0 h ∙ sym same) a)

pub data Change : Type 0 where
  registers : (id now : ℕ) (name prefix upstream health : Text) → Change
  registers_advanced : (id now : ℕ) → ServiceRequest → Change
  loads : (id now : ℕ) → ServiceRequest → Change
  unregisters : (id : ℕ) → Change

pub change : ServiceRegistry → Change → ServiceRegistry
change r (registers id now name prefix upstream health) =
    (register r id now name prefix upstream health).0
change r (registers_advanced id now req) = (register_advanced r id now req).0
change r (loads id now req) = load_one r (id, now, req)
change r (unregisters id) = (unregister r id).0

-- The change asks for a prefix that is not the empty text.
abbrev pub HasPrefix : Change → Type 0
HasPrefix (registers id now name prefix upstream health) = prefix ≢ []
HasPrefix (registers_advanced id now req) = req.prefix ≢ []
HasPrefix (loads id now req) = req.prefix ≢ []
HasPrefix (unregisters id) = Unit

load_one-IsUnique :
    (r : ServiceRegistry) (id now : ℕ) (req : ServiceRequest)
    → req.prefix ≢ []
    → IsUnique r.services
    → IsUnique (load_one r (id, now, req)).services
unfolding load_one find_by_prefix new_entry
load_one-IsUnique r id now req h u =
    elim (Option-cases (find (λ e. e.prefix == normalized_prefix req.prefix) r.services)) [
      | inl missing ↦
          let a = find-Unlike (normalized_prefix req.prefix) r.services missing in
          let a' =
            All-Unlike-prefix (normalized_prefix req.prefix) (entry_prefix req.prefix) r.services
              ((normalized_prefix-entry_prefix req.prefix).0 h) a in
          ground (arith, insert-IsUnique (advanced_entry id now req) r.services u a')
      | inr (found, e) ↦ ground arith
    ]

pub change-IsUnique :
    (r : ServiceRegistry) (c : Change)
    → HasPrefix c
    → IsUnique r.services
    → IsUnique (change r c).services
unfolding change register register_advanced unregister new_entry
change-IsUnique r (registers id now name prefix upstream health) h u =
    register_entry-IsUnique r prefix (new_entry id now name prefix upstream health) h refl u
change-IsUnique r (registers_advanced id now req) h u =
    register_entry-IsUnique r req.prefix (advanced_entry id now req) h refl u
change-IsUnique r (loads id now req) h u = load_one-IsUnique r id now req h u
change-IsUnique r (unregisters id) h u = ground (arith, remove-IsUnique id r.services)

pub changes : ServiceRegistry → List Change → ServiceRegistry
changes r [] = r
changes r (c ∷ cs) = changes (change r c) cs

changes-IsUnique :
    (r : ServiceRegistry) (cs : List Change)
    → All HasPrefix cs
    → IsUnique r.services
    → IsUnique (changes r cs).services
unfolding changes
changes-IsUnique r [] h u = u
changes-IsUnique r (c ∷ cs) (h, hs) u =
    changes-IsUnique (change r c) cs hs (change-IsUnique r c h u)

-- After any registrations, loads and removals whose prefixes are not empty texts, no two
-- services have one prefix, and each stands under its own id.
pub changes-new-IsUnique :
    (cs : List Change) → All HasPrefix cs → IsUnique (changes new cs).services
unfolding new
changes-new-IsUnique cs h = changes-IsUnique new cs h tt
