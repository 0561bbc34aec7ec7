-- ===== src/Devices/Discovery/Priorities.antt =====
-- Which source a collapsed record has.
use citadel_dnxproxy.Prelude.{
  ℕ, ◌≡◌, refl, ◌∙◌, ap, ◌≤◌, ◌≢◌, ◌⊎◌, inl, inr, true, false, List, [], ◌∷◌, Option, none, some,
  arith, ltb, Bool-cases, str_eq, str_eq_iff,
}
use mathlib.Core.List.{Memᴰ}
use mathlib.Core.Option.{none-ne-some}
use citadel_dnxproxy.Prelude.Dict
use citadel_dnxproxy.Prelude.Dict.{Dict}
use citadel_dnxproxy.Clock.{Time}
use citadel_dnxproxy.Text.{Text, is_empty}
use citadel_dnxproxy.Devices.{DeviceRecord}
use citadel_dnxproxy.Devices.Discovery.{
  source_priority, record_key, named, merged_with, chosen, seen_at, collapse_one, collapse,
}

abbrev priority : DeviceRecord → ℕ
priority r = source_priority r.source

not-ltb : (a b : ℕ) → ltb a b ≡ false → b ≤ a
not-ltb a b h = ground arith

below : (a b : ℕ) → ltb a b ≡ true → a ≤ b
below a b h = ground arith

chosen-new : (o : Option DeviceRecord) (r : DeviceRecord) → priority r ≤ priority (chosen o r)
unfolding named merged_with
chosen-new none r = omega arith
chosen-new (some c) r = elim (Bool-cases (ltb (priority c) (priority r))) [
  | inl e ↦ rw e (omega arith)
  | inr e ↦ rw e (not-ltb (priority c) (priority r) e)
]

chosen-old : (c r : DeviceRecord) → priority c ≤ priority (chosen (some c) r)
unfolding named merged_with
chosen-old c r = elim (Bool-cases (ltb (priority c) (priority r))) [
  | inl e ↦ rw e (below (priority c) (priority r) e)
  | inr e ↦ rw e (omega arith)
]

-- A record with the key, of a source that is as good.
abbrev AtLeast : ℕ → Text → Dict DeviceRecord → Type 0
AtLeast p k result = (c : DeviceRecord) × (Dict.get result k ≡ some c) × (p ≤ priority c)

collapse_one-new :
    (now : Time) (r : DeviceRecord) (result : Dict DeviceRecord)
    → is_empty (record_key r) ≡ false
    → AtLeast (priority r) (record_key r) (collapse_one now r result)
unfolding collapse_one
collapse_one-new now r result e =
    let r' : DeviceRecord = record r { last_seen = seen_at now r.last_seen } in
    let c : DeviceRecord = chosen (Dict.get result (record_key r)) r' in
    rw e (c, Dict.get-put_self result (record_key r) c, chosen-new _ r')

raised :
    (result : Dict DeviceRecord) (key k : Text) (r c : DeviceRecord) (p : ℕ)
    → Dict.get result k ≡ some c
    → p ≤ priority c
    → str_eq key k ≡ true
    → p ≤ priority (chosen (Dict.get result key) r)
raised result key k r c p g l q =
    let same : Dict.get result key ≡ some c = ap (Dict.get result) ((str_eq_iff key k).0 q) ∙ g in
    let up = chosen-old c r in rw same (omega (arith, l, up))

collapse_one-old :
    (now : Time) (r : DeviceRecord) (result : Dict DeviceRecord) (p : ℕ) (k : Text)
    → AtLeast p k result
    → AtLeast p k (collapse_one now r result)
unfolding collapse_one
collapse_one-old now r result p k (c, g, l) = elim (Bool-cases (is_empty (record_key r))) [
  | inl e ↦ rw e (c, g, l)
  | inr e ↦
      let key = record_key r in
      let r' : DeviceRecord = record r { last_seen = seen_at now r.last_seen } in
      let made : DeviceRecord = chosen (Dict.get result key) r' in
      rw e (elim (Bool-cases (str_eq key k)) [
        | inl q ↦
            (made, rw (Dict.get-put result key k made, q) refl, raised result key k r' c p g l q)
        | inr q ↦ (c, rw (Dict.get-put result key k made, q) g, l)
      ])
]

collapse-AtLeast :
    (now : Time) (rs : List DeviceRecord) (result : Dict DeviceRecord) (p : ℕ) (k : Text)
    → AtLeast p k result
    → AtLeast p k (collapse now rs result)
unfolding collapse
collapse-AtLeast now [] result p k h = h
collapse-AtLeast now (r ∷ rs) result p k h =
    collapse-AtLeast now rs _ p k (collapse_one-old now r result p k h)

collapse-member :
    (now : Time) (rs : List DeviceRecord) (result : Dict DeviceRecord) (r : DeviceRecord)
    → is_empty (record_key r) ≡ false
    → Memᴰ r rs
    → AtLeast (priority r) (record_key r) (collapse now rs result)
unfolding collapse
collapse-member now [] result r e m = elim m [ ]
collapse-member now (x ∷ xs) result r e (Memᴰ.head same) = rw same (
    collapse-AtLeast now xs _ (priority x) (record_key x)
      (collapse_one-new now x result (rw (← same) e)))
collapse-member now (x ∷ xs) result r e (Memᴰ.tail m) = collapse-member now xs _ r e m

-- A record of the dictionary is of the source of a record that was there or in the list, with its key.
abbrev From : List DeviceRecord → Text → DeviceRecord → Type 0
From rs k c = (r : DeviceRecord) × Memᴰ r rs × (record_key r ≡ k) × (c.source ≡ r.source)

abbrev Sourced : List DeviceRecord → Dict DeviceRecord → Type 0
Sourced rs result = (k : Text) (c : DeviceRecord) → Dict.get result k ≡ some c → From rs k c

chosen-source :
    (o : Option DeviceRecord) (r : DeviceRecord)
    → ((chosen o r).source ≡ r.source)
      ⊎ ((c : DeviceRecord) × (o ≡ some c) × ((chosen o r).source ≡ c.source))
unfolding named merged_with
chosen-source none r = inl refl
chosen-source (some c) r = elim (Bool-cases (ltb (priority c) (priority r))) [
  | inl e ↦ rw e (inl refl)
  | inr e ↦ rw e (inr (c, refl, refl))
]

collapse_one-Sourced :
    (now : Time) (all : List DeviceRecord) (r : DeviceRecord) (result : Dict DeviceRecord)
    → Memᴰ r all
    → Sourced all result
    → Sourced all (collapse_one now r result)
unfolding collapse_one
collapse_one-Sourced now all r result m h k c g =
    let key = record_key r in
    let r' : DeviceRecord = record r { last_seen = seen_at now r.last_seen } in
    elim (Bool-cases (is_empty key)) [
      | inl e ↦ h k c (rw e at g)
      | inr e ↦
          elim (Dict.get-put-some result key k (chosen (Dict.get result key) r') c (rw e at g)) [
            | inl (same, w) ↦ elim (chosen-source (Dict.get result key) r') [
              | inl s ↦ (r, m, same, ap (λ x. x.source) w ∙ s)
              | inr (c0, f, s) ↦
                  let (r0, m0, e0, s0) = h key c0 f in
                  (r0, m0, e0 ∙ same, ap (λ x. x.source) w ∙ s ∙ s0)
            ]
            | inr rest ↦ h k c rest
          ]
    ]

collapse-Sourced :
    (now : Time) (all rs : List DeviceRecord) (result : Dict DeviceRecord)
    → ((r : DeviceRecord) → Memᴰ r rs → Memᴰ r all)
    → Sourced all result
    → Sourced all (collapse now rs result)
unfolding collapse
collapse-Sourced now all [] result m h = h
collapse-Sourced now all (r ∷ rs) result m h =
    collapse-Sourced now all rs _ (λ x i. m x (Memᴰ.tail i))
      (collapse_one-Sourced now all r result (m r (Memᴰ.head refl)) h)

is_empty_ne : (s : Text) → s ≢ [] → is_empty s ≡ false
is_empty_ne [] h = absurd (h refl)
is_empty_ne (c ∷ s) h = refl

-- For every record with a key, `collapse` holds under that key a record of a source whose priority
-- is at least that record's, and every record it holds has the source of some record with its key.
pub collapse-source_priority :
    (now : Time) (rs : List DeviceRecord)
    → ((r : DeviceRecord)
        → Memᴰ r rs
        → record_key r ≢ []
        → (c : DeviceRecord) × (Dict.get (collapse now rs []) (record_key r) ≡ some c)
          × (source_priority r.source ≤ source_priority c.source))
      × ((k : Text) (c : DeviceRecord)
          → Dict.get (collapse now rs []) k ≡ some c
          → (r : DeviceRecord) × Memᴰ r rs × (record_key r ≡ k) × (c.source ≡ r.source))
unfolding Dict.get
collapse-source_priority now rs = (
  λ r m n. collapse-member now rs [] r (is_empty_ne (record_key r) n) m,
  collapse-Sourced now rs rs [] (λ r m. m) (λ k c g. absurd (none-ne-some _ g)),
)
