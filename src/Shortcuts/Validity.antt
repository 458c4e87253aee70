-- ===== src/Shortcuts/Validity.antt =====
-- A shortcut that passes the checks has a name and the address of a web page.
use a6_core.Prelude.{
  inl, inr, String, Bool, true, false, Option, none, some, ◌==◌, ◌≡◌, ◌≢◌, refl, sym, ap, subst,
  ◌∙◌, trim_space, ne_of_test, Bool-cases, if◌then◌else◌,
}
use a6_core.State.Types.{Shortcut}
use a6_core.Shortcuts.{
  ShortcutError, invalid_name, invalid_url, Checked, fine, bad, and_then, nonempty, validate_name,
  UpdateInput, is_web_url, validate_url, existing, fetched_or_default, resolve_icon, change_icon,
  change_name, change_url, new_shortcut, changed,
}

and_then_fine :
    {A B : Type 0} (c : Checked A) (k : A → Checked B) (b : B)
    → and_then c k ≡ fine b
    → (a : A) × (c ≡ fine a) × (k a ≡ fine b)
and_then_fine (fine a) k b h = (a, refl, h)
and_then_fine (bad e) k b h = absurd (cc h)

bad-ne-fine : {A : Type 0} (e : ShortcutError) (a : A) → bad e ≡ fine a → ⊥
bad-ne-fine e a h = cc h

fine_inj : {A : Type 0} (a b : A) → fine a ≡ fine b → a ≡ b
fine_inj a b h = ap (λ c. elim c [ fine x ↦ x | bad e ↦ a ]) h

nonempty_fine : (name n : String) → nonempty name ≡ fine n → n ≢ ""
nonempty_fine name n h = elim (Bool-cases (name == "")) [
  | inl e ↦
      absurd (
        bad-ne-fine invalid_name n
          (sym (ap (λ b. if b then bad invalid_name else fine name) e) ∙ h))
  | inr ne ↦
      subst (λ x. x ≢ "")
        (fine_inj name n (sym (ap (λ b. if b then bad invalid_name else fine name) ne) ∙ h))
        (ne_of_test name "" ne)
]

validate_name_fine : (name n : String) → validate_name name ≡ fine n → n ≢ ""
unfolding validate_name
validate_name_fine name n h = nonempty_fine (trim_space name) n h

module _ (parse : String → Option (String × String)) where
  -- A name, and the absolute address of a page on the web.
  abbrev pub IsValid : Shortcut → Type 0
  IsValid sc = (sc.name ≢ "") × (is_web_url parse sc.url ≡ true)

  validate_url_fine : (raw u : String) → validate_url parse raw ≡ fine u → is_web_url parse u ≡ true
  unfolding validate_url
  validate_url_fine raw u h = elim (Bool-cases (is_web_url parse raw)) [
    | inl e ↦
        subst (λ x. is_web_url parse x ≡ true)
          (fine_inj raw u (sym (ap (λ b. if b then fine raw else bad invalid_url) e) ∙ h)) e
    | inr ne ↦
        absurd (
          bad-ne-fine invalid_url u
            (sym (ap (λ b. if b then fine raw else bad invalid_url) ne) ∙ h))
  ]

  change_name-IsValid :
      (name : Option String) (sc new : Shortcut)
      → change_name name sc ≡ fine new
      → IsValid sc
      → IsValid new
  change_name-IsValid none sc new h v = subst IsValid (fine_inj sc new h) v
  change_name-IsValid (some name) sc new h v =
      let (n, ok, e) =
        and_then_fine (validate_name name) (λ n. fine (record sc { name = n })) new h in
      subst IsValid (fine_inj (record sc { name = n }) new e) (validate_name_fine name n ok, v.1)

  change_url-IsValid :
      (url : Option String) (sc new : Shortcut)
      → change_url parse url sc ≡ fine new
      → IsValid sc
      → IsValid new
  change_url-IsValid none sc new h v = subst IsValid (fine_inj sc new h) v
  change_url-IsValid (some url) sc new h v =
      let (u, ok, e) =
        and_then_fine (validate_url parse url) (λ u. fine (record sc { url = u })) new h in
      subst IsValid (fine_inj (record sc { url = u }) new e) (v.0, validate_url_fine url u ok)

  module _ (exists : String → Bool) (fetch : String → Option String) where
    change_icon-IsValid :
        (icon : Option String) (refresh : Bool) (sc new : Shortcut)
        → change_icon exists fetch icon refresh sc ≡ fine new
        → IsValid sc
        → IsValid new
    change_icon-IsValid none true sc new h v =
        subst IsValid
          (fine_inj (record sc { icon_id = fetched_or_default exists fetch (fetch sc.url) }) new h)
          v
    change_icon-IsValid none false sc new h v = subst IsValid (fine_inj sc new h) v
    change_icon-IsValid (some icon) refresh sc new h v = elim (Bool-cases (icon == "")) [
      | inl e ↦
          subst IsValid
            (fine_inj (record sc { icon_id = "" }) new
              (sym (
                  ap
                    (λ b.
                      if b
                      then fine (record sc { icon_id = "" })
                      else and_then (existing exists icon) (λ i. fine (record sc { icon_id = i })))
                    e)
                ∙ h))
            v
      | inr ne ↦
          let (i, ok, e) =
            and_then_fine (existing exists icon) (λ i. fine (record sc { icon_id = i })) new
              (sym (
                  ap
                    (λ b.
                      if b
                      then fine (record sc { icon_id = "" })
                      else and_then (existing exists icon) (λ i. fine (record sc { icon_id = i })))
                    ne)
                ∙ h) in
          subst IsValid (fine_inj (record sc { icon_id = i }) new e) v
    ]

    pub changed-IsValid :
        (input : UpdateInput) (sc new : Shortcut)
        → changed parse exists fetch input sc ≡ fine new
        → IsValid sc
        → IsValid new
    unfolding changed
    changed-IsValid input sc new h v =
        let rest = λ (x : Shortcut). change_icon exists fetch input.icon_id input.refresh_icon x in
        let (a, ha, ra) =
          and_then_fine (change_name input.name sc)
            (λ x. and_then (change_url parse input.url x) rest) new h in
        let (b, hb, rb) = and_then_fine (change_url parse input.url a) rest new ra in
        change_icon-IsValid input.icon_id input.refresh_icon b new rb
          (change_url-IsValid input.url a b hb (change_name-IsValid input.name sc a ha v))

    pub new_shortcut-IsValid :
        (id name url icon : String) (new : Shortcut)
        → new_shortcut parse exists fetch id name url icon ≡ fine new
        → IsValid new
    unfolding new_shortcut
    new_shortcut-IsValid id name url icon new h =
        let (n, hn, rn) =
          and_then_fine (validate_name name)
            (λ n. and_then (validate_url parse url) (λ u.
              and_then (resolve_icon exists fetch icon u)
                (λ i. fine (record { id = id; name = n; url = u; icon_id = i }))))
            new h in
        let (u, hu, ru) =
          and_then_fine (validate_url parse url)
            (λ u.
              and_then (resolve_icon exists fetch icon u)
                (λ i. fine (record { id = id; name = n; url = u; icon_id = i })))
            new rn in
        let (i, hi, ri) =
          and_then_fine (resolve_icon exists fetch icon u)
            (λ i. fine (record { id = id; name = n; url = u; icon_id = i })) new ru in
        subst IsValid (fine_inj (record { id = id; name = n; url = u; icon_id = i }) new ri)
          (validate_name_fine name n hn, validate_url_fine url u hu)
