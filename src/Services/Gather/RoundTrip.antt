-- ===== src/Services/Gather/RoundTrip.antt =====
-- What services/spread.ts sends on, services/gather.ts puts back together.
use mathlib.Core.Path.{ap₂}
use hkp_node.Shared.{
  ℕ, zero, suc, ◌+◌, ◌-◌, ◌≤◌, ◌<◌, ◌≡◌, ◌≢◌, refl, sym, ap, subst, ◌∙◌, inl, inr, String, true,
  false, List, [], ◌∷◌, map, Option, none, some, arith, eq_iff, length, get_elem?, string_eq,
  nat_eq, Option-cases, is_some, All,
}
use hkp_node.Shared.OrderedMap.{
  OrderedMap, get, has, set, Distinct, get-set, has-set, has-get, length-set, All-set, All-get,
  set-Distinct,
}
use hkp_node.Shared.Json.{Json, Js}
use hkp_node.Services.Gather.{
  Part, Collecting, Event, Settings, Gather, Answer, stopped, size_of, drop_stale_groups,
  let_go_of_stale, items_from, whole, add_part, new_group, take_part, process_part,
}
use hkp_node.Services.Spread.{sent_parts, parts_from}
use hkp_node.Services.Gather.Reassembly.{has_of_full}
use hkp_node.Services.Gather.Arrival.{
  Awaits, with_part, let_go-Awaits, add_part-next, add_part-last, take_part-found, take_part-begins,
  items_from-eq, IsKept-of_absent, drop_stale_groups-SameGroup, has-drop_stale_refusals,
}

-- The answers of a run whose last call answers `a`: the others answer nothing.
pub expected : List (ℕ × Part) → Answer → List Answer
expected [] a = []
expected (e ∷ []) a = a ∷ []
expected (e ∷ f ∷ es) a = stopped ∷ expected (f ∷ es) a

pub get_elem?-lt : (xs : List Json) (i : ℕ) (x : Json) → get_elem? xs i ≡ some x → i < length xs
get_elem?-lt [] i x h = cc
get_elem?-lt (y ∷ xs) zero x h = omega arith
get_elem?-lt (y ∷ xs) (suc i) x h = omega (arith, get_elem?-lt xs i x h)

pub part-placed :
    (g : String) (total from i : ℕ) (xs : List Json) (part : Part)
    → get_elem? (parts_from g total from xs) i ≡ some part
    → (part.group ≡ g) × (part.total ≡ total) × (get_elem? xs i ≡ some part.item)
unfolding parts_from
part-placed g total from i [] part h = cc
part-placed g total from zero (x ∷ xs) part h = ground arith
part-placed g total from (suc i) (x ∷ xs) part h = part-placed g total (from + 1) i xs part h

-- No index is sent twice.
abbrev pub Apart : List (ℕ × Part) → Type 0
Apart [] = Unit
Apart (e ∷ es) = All (λ f. f.1.index ≢ e.1.index) es × Apart es

module _ (js : Js) (pipeline : Option (String → List (Option Json) → Json)) where
  -- The calls of a history of parts, each at its time: the state after them and their answers.
  unfoldable pub run : List (ℕ × Part) → Gather → Gather × List Answer
  run [] st = (st, [])
  run ((now, part) ∷ ps) st =
      let (st', events, answer) = process_part js pipeline now part st in
      let (st'', answers) = run ps st' in (st'', answer ∷ answers)

  unfoldable pub size_parts : List (ℕ × Part) → ℕ
  size_parts [] = 0
  size_parts ((now, part) ∷ es) = size_of js part.item + size_parts es

  -- A part that says where in `xs` its item sits, arriving while its group is still waited for.
  abbrev IsPlaced : String → List Json → ℕ → ℕ → ℕ × Part → Type 0
  IsPlaced g xs start timeout (now, part) =
      (part.group ≡ g)
      × (part.total ≡ length xs)
      × (get_elem? xs part.index ≡ some part.item)
      × (now - start ≤ timeout)

  -- One of the parts that Spread sends for `xs`, arriving while its group is still waited for.
  abbrev pub IsSent : String → List Json → ℕ → ℕ → ℕ × Part → Type 0
  IsSent g xs start timeout (now, part) =
      (get_elem? (sent_parts g xs) part.index ≡ some part) × (now - start ≤ timeout)

  -- A group some of whose parts are in `c` and the others still to come.
  record IsPending (g : String) (xs : List Json) (s : Settings) (c : Collecting)
      (es : List (ℕ × Part)) : Type 0 where
    total : c.total ≡ length xs
    distinct : Distinct c.items
    known : All (λ e. get_elem? xs e.0 ≡ some e.1) c.items
    count : length c.items + length es ≡ length xs
    sent : All (IsPlaced g xs c.started_at s.timeout_ms) es
    fresh : All (λ e. has e.1.index c.items ≡ false) es
    apart : Apart es
    fits : c.bytes + size_parts es ≤ s.max_bytes

  fresh-set :
      (i : ℕ) (item : Json) (m : OrderedMap ℕ Json) (es : List (ℕ × Part))
      → All (λ e. has e.1.index m ≡ false) es
      → All (λ e. e.1.index ≢ i) es
      → All (λ e. has e.1.index (set i item m) ≡ false) es
  fresh-set i item m [] f a = tt
  fresh-set i item m ((now, part) ∷ es) f a =
      (ground (arith, has-set i part.index item m, f.0, a.0), fresh-set i item m es f.1 a.1)

  next-IsPending :
      (g : String) (xs : List Json) (s : Settings) (c : Collecting) (now : ℕ) (part : Part)
      (es : List (ℕ × Part))
      → IsPending g xs s c ((now, part) ∷ es)
      → IsPending g xs s (with_part js pipeline part c) es
  unfolding size_parts
  next-IsPending g xs s c now part es p = record {
    total = p.total;
    distinct = set-Distinct part.index part.item c.items p.distinct;
    known =
        All-set (λ e. get_elem? xs e.0 ≡ some e.1) part.index part.item c.items p.sent.0.2 p.known;
    count = ground (arith, p.count, length-set part.index part.item c.items, p.fresh.0);
    sent = p.sent.1;
    fresh = fresh-set part.index part.item c.items es p.fresh.1 p.apart.0;
    apart = p.apart.1;
    fits = omega (arith, p.fits);
  }

  -- Once every part is in, the items are those that were sent, in order.
  complete-items :
      (xs : List Json) (m : OrderedMap ℕ Json)
      → Distinct m
      → All (λ e. get_elem? xs e.0 ≡ some e.1) m
      → length m ≡ length xs
      → items_from 0 (length xs) m ≡ map some xs
  complete-items xs m d k l = items_from-eq 0 xs m λ j inside.
      ap (λ i. get i m) (omega arith)
      ∙ held j (has_of_full (length xs) j m d (below m k) (omega arith) inside)
    where
      below :
          (es : OrderedMap ℕ Json)
          → All (λ e. get_elem? xs e.0 ≡ some e.1) es
          → All (λ e. e.0 < length xs) es
      below [] h = tt
      below ((i, item) ∷ es) h = (get_elem?-lt xs i item h.0, below es h.1)

      held : (j : ℕ) → has j m ≡ true → get j m ≡ get_elem? xs j
      held j there = elim (Option-cases (get j m)) [
        | inl missing ↦ absurd (cc (sym there ∙ has-get j m ∙ ap is_some missing))
        | inr (item, found) ↦
            found ∙ sym (All-get (λ e. get_elem? xs e.0 ≡ some e.1) j item m found k)
      ]

  -- From a part on that its group awaits, the calls answer nothing until the last, which hands on
  -- the items in order.
  add-all :
      (g : String) (xs : List Json) (s : Settings) (c : Collecting) (now : ℕ) (part : Part)
      (es : List (ℕ × Part)) (st : Gather)
      → st.settings ≡ s
      → Awaits js pipeline g c st
      → IsPending g xs s c ((now, part) ∷ es)
      → (add_part js pipeline now part c st).2 ∷ (run es (add_part js pipeline now part c st).0).1
        ≡ expected ((now, part) ∷ es) (whole pipeline s g (map some xs))
  unfolding run expected size_parts process_part
  add-all g xs s c now part [] st same a p =
      ap (λ r. r ∷ [])
        (cc (
          add_part-last js pipeline now part c st (p.total ∙ sym p.sent.0.1) p.fresh.0
              (rw same (omega (arith, p.fits))) (omega (arith, p.count, p.sent.0.1)),
          same,
          p.sent.0.0,
          p.sent.0.1,
          complete-items xs (set part.index part.item c.items)
              (next-IsPending g xs s c now part [] p).distinct
              (next-IsPending g xs s c now part [] p).known
              (omega (arith, (next-IsPending g xs s c now part [] p).count)),
        ))
  add-all g xs s c now part ((later, next) ∷ es) st same a p =
      let p' = next-IsPending g xs s c now part ((later, next) ∷ es) p in
      let c' : Collecting = with_part js pipeline part c in
      let st₁ : Gather = (add_part js pipeline now part c st).0 in
      let (quiet, awaits, settings) =
        add_part-next js pipeline now part c st (p.total ∙ sym p.sent.0.1) p.fresh.0
          (rw same (omega (arith, p.fits))) (omega (arith, p.count, p.sent.0.1))
          (subst (λ k. Awaits js pipeline k c st) (sym p.sent.0.0) a) in
      let st₂ : Gather = (let_go_of_stale later st₁).0 in
      let (awaits', settings') =
        let_go-Awaits js pipeline later g c' st₁
          (rw (settings, same) (ground (arith, p.sent.1.0.3)))
          (subst (λ k. Awaits js pipeline k c' st₁) p.sent.0.0 awaits) in
      let taken : take_part js pipeline later next st₂ ≡ add_part js pipeline later next c' st₂ =
        take_part-found js pipeline later next c' st₂
          (subst (λ k. Awaits js pipeline k c' st₂) (sym p.sent.1.0.0) awaits') in
      ap₂ (λ r rs. r ∷ rs) quiet
        (subst
          (λ (r : Gather × List Event × Answer).
            r.2 ∷ (run es r.0).1 ≡ expected ((later, next) ∷ es) (whole pipeline s g (map some xs)))
          (sym taken)
          (add-all g xs s c' later next es st₂ (settings' ∙ settings ∙ same) awaits' p'))

  placed :
      (g : String) (xs : List Json) (start timeout : ℕ) (es : List (ℕ × Part))
      → All (IsSent g xs start timeout) es
      → All (IsPlaced g xs start timeout) es
  unfolding sent_parts
  placed g xs start timeout [] h = tt
  placed g xs start timeout ((now, part) ∷ es) h =
      let (group, total, item) = part-placed g (length xs) 0 part.index xs part h.0.0 in
      ((group, total, item, h.0.1), placed g xs start timeout es h.1)

  none_held :
      (es : List (ℕ × Part))
      → All (λ e. has e.1.index (let m : OrderedMap ℕ Json = [] in m) ≡ false) es
  unfolding has
  none_held [] = tt
  none_held (e ∷ es) = (refl, none_held es)

  -- What Spread sends of `xs`, Gather puts back together. The parts may arrive in any order, each
  -- once and all within the timeout of the first; the group must be new, there must be room for one
  -- more, and the items must fit the byte limit. Then every call but the last answers nothing, and
  -- the last hands on exactly `xs`, in the order in which they were spread.
  pub run-sent_parts :
      (g : String) (xs : List Json) (start : ℕ) (part : Part) (es : List (ℕ × Part)) (st : Gather)
      → get g st.collecting ≡ none
      → has g st.refused ≡ false
      → Distinct st.collecting
      → length st.collecting < st.settings.max_groups
      → All (IsSent g xs start st.settings.timeout_ms) ((start, part) ∷ es)
      → Apart ((start, part) ∷ es)
      → length ((start, part) ∷ es) ≡ length xs
      → size_parts ((start, part) ∷ es) ≤ st.settings.max_bytes
      → (run ((start, part) ∷ es) st).1
        ≡ expected ((start, part) ∷ es) (whole pipeline st.settings g (map some xs))
  unfolding run process_part let_go_of_stale new_group
  run-sent_parts g xs start part es st new free distinct room sent apart count fits =
      let (e, s, r, d, l) =
        drop_stale_groups-SameGroup start g st.collecting st
          (IsKept-of_absent start st.settings g st.collecting new) in
      let where_sent = placed g xs start st.settings.timeout_ms ((start, part) ∷ es) sent in
      let same_group : part.group ≡ g = where_sent.0.0 in
      let st' : Gather = (let_go_of_stale start st).0 in
      let c : Collecting = new_group start part in
      let begun : Gather = record st' { collecting = set part.group c st'.collecting } in
      let is_new : get part.group st'.collecting ≡ none =
        ap (λ k. get k st'.collecting) same_group ∙ e ∙ new in
      let is_free : has g st'.refused ≡ false =
        has-drop_stale_refusals start (drop_stale_groups start st.collecting st).0.settings g _
          (rw r free) in
      let awaits : Awaits js pipeline g c begun = record {
        found =
            ground (arith, get-set part.group g c st'.collecting, eq_iff part.group g, same_group);
        free = is_free;
        distinct = set-Distinct part.group c st'.collecting (d distinct);
      } in
      let begins : take_part js pipeline start part st' ≡ add_part js pipeline start part c begun =
        take_part-begins js pipeline start part st' is_new
          (ap (λ k. has k st'.refused) same_group ∙ is_free) (rw s (omega (arith, l, room))) in
      subst
        (λ (r : Gather × List Event × Answer).
          r.2 ∷ (run es r.0).1
          ≡ expected ((start, part) ∷ es) (whole pipeline st.settings g (map some xs)))
        (sym begins)
        (add-all g xs st.settings c start part es begun s awaits (record {
          total = where_sent.0.1;
          distinct = tt;
          known = tt;
          count = omega (arith, count);
          sent = where_sent;
          fresh = none_held ((start, part) ∷ es);
          apart = apart;
          fits = omega (arith, fits);
        }))
