-- ===== src/Settings/Parsing.antt =====
-- Parse and its descriptor, which is resolved once.
use goxo.Base.{
  ◌≡◌, refl, ap, ◌∙◌, ◌⊎◌, inl, inr, true, none, some, List, [], ◌∷◌, Result, ok, err, ◌>>=◌, map,
  map_err, Result-cases,
}
use goxo.Base.Text.{Str}
use goxo.Settings.{
  Proto, SettingsError, parse_proto, parse_set, build_files, resolve, not_a_message, Settings, Once,
  fresh_once, settings_message, resolve_descriptor, message_descriptor, settings_of, parse,
}

-- The answers of calls of Parse, one after the other.
abbrev pub answers : (p : Proto) → Str → List Str → Once p → List (Result SettingsError Settings)
answers p fdset [] once = []
answers p fdset (text ∷ texts) once =
    let (once', answer) = parse p fdset text once in answer ∷ answers p fdset texts once'

-- The settings message's descriptor, or the first of the errors.
abbrev pub descriptor : (p : Proto) → Str → Result SettingsError p.MessageDescriptor
descriptor p fdset = do
  set ← map_err parse_set (p.parse_set fdset)
  files ← map_err build_files (p.new_files set)
  d ← map_err resolve (p.find files settings_message)
  elim d [ some md ↦ ok md | none ↦ err not_a_message ]

-- Parse with no cache: each call resolves the descriptor anew.
abbrev pub parse_afresh : (p : Proto) → Str → Str → Result SettingsError Settings
parse_afresh p fdset text = do
  md ← descriptor p fdset
  msg ← map_err parse_proto (p.unmarshal (some md) text)
  ok (settings_of p msg)

module _ (p : Proto) (fdset : Str) where
  -- The variables hold what the descriptor set gives.
  abbrev Holds : Once p → Type 0
  Holds o =
      ((md : p.MessageDescriptor) × (descriptor p fdset ≡ ok md)
        × (o.desc_md ≡ some md)
        × (o.desc_err ≡ none))
      ⊎ ((e : SettingsError) × (descriptor p fdset ≡ err e) × (o.desc_err ≡ some e))

  record Resolved (o : Once p) : Type 0 where
    ran : o.done ≡ true
    what : Holds o

  failed :
      (e : SettingsError)
      → descriptor p fdset ≡ err e
      → resolve_descriptor p fdset (fresh_once p) ≡ record (fresh_once p) { desc_err = some e }
      → Holds (resolve_descriptor p fdset (fresh_once p))
  failed e d q = inr (e, d, ap (λ (o : Once p). o.desc_err) q)

  resolve_descriptor-Holds : Holds (resolve_descriptor p fdset (fresh_once p))
  unfolding resolve_descriptor
  resolve_descriptor-Holds = elim (Result-cases (p.parse_set fdset)) [
    | inr (e, h) ↦ failed (parse_set e) (rw h refl) (rw (h, resolve_descriptor) refl)
    | inl (set, h) ↦ elim (Result-cases (p.new_files set)) [
      | inr (e, k) ↦
          failed (build_files e) (rw h (rw k refl)) (rw (h, resolve_descriptor) (rw k refl))
      | inl (files, k) ↦ elim (Result-cases (p.find files settings_message)) [
        | inr (e, f) ↦
            failed (resolve e) (rw h (rw k (rw f refl)))
              (rw (h, resolve_descriptor) (rw k (rw f refl)))
        | inl (none, f) ↦
            failed not_a_message (rw h (rw k (rw f refl)))
              (rw (h, resolve_descriptor) (rw k (rw f refl)))
        | inl (some md, f) ↦
            let q : resolve_descriptor p fdset (fresh_once p)
                ≡ record (fresh_once p) { desc_md = some md; desc_err = none } =
              rw (h, resolve_descriptor) (rw k (rw f refl)) in
            inl (
              md,
              rw h (rw k (rw f refl)),
              ap (λ (o : Once p). o.desc_md) q,
              ap (λ (o : Once p). o.desc_err) q,
            )
      ]
    ]
  ]

  resolved : Resolved (message_descriptor p fdset (fresh_once p))
  unfolding message_descriptor
  resolved = record { ran = refl; what = resolve_descriptor-Holds }

  -- Once the descriptor is resolved, no call looks at a descriptor set.
  Resolved-kept : (fdset' : Str) (o : Once p) → Resolved o → message_descriptor p fdset' o ≡ o
  unfolding message_descriptor
  Resolved-kept fdset' o v = rw v.ran refl

  Resolved-parse :
      (fdset' text : Str) (o o' : Once p)
      → message_descriptor p fdset' o ≡ o'
      → Resolved o'
      → ((parse p fdset' text o).0 ≡ o') × ((parse p fdset' text o).1 ≡ parse_afresh p fdset text)
  unfolding parse
  Resolved-parse fdset' text o o' q v = elim v.what [
    | inl (md, d, m, n) ↦
        let no_error : (message_descriptor p fdset' o).desc_err ≡ none =
          ap (λ (x : Once p). x.desc_err) q ∙ n in
        let found : (message_descriptor p fdset' o).desc_md ≡ some md =
          ap (λ (x : Once p). x.desc_md) q ∙ m in
        (q, rw (no_error, parse) (rw (found, d) refl))
    | inr (e, d, n) ↦
        let error : (message_descriptor p fdset' o).desc_err ≡ some e =
          ap (λ (x : Once p). x.desc_err) q ∙ n in
        (q, rw (error, parse) (rw d refl))
  ]

  answers-Resolved :
      (fdset' : Str) (texts : List Str) (o : Once p)
      → Resolved o
      → answers p fdset' texts o ≡ map (parse_afresh p fdset) texts
  answers-Resolved fdset' [] o v = refl
  answers-Resolved fdset' (text ∷ texts) o v =
      let (kept, answer) = Resolved-parse fdset' text o o (Resolved-kept fdset' o v) v in
      rw (kept, answer) (ap (◌∷◌ (parse_afresh p fdset text)) (answers-Resolved fdset' texts o v))

-- The first call of Parse answers as if it resolved the descriptor for itself, be that the descriptor
-- or any of the four errors, and so does every later call, with the first call's descriptor: a later
-- call does not look at the descriptor set again, whatever it may be by then, and an error that the
-- first call met is not lost.
pub answers-parse_afresh :
    (p : Proto) (fdset fdset' text : Str) (texts : List Str)
    → ((parse p fdset text (fresh_once p)).1 ≡ parse_afresh p fdset text)
      × (answers p fdset' texts (parse p fdset text (fresh_once p)).0
          ≡ map (parse_afresh p fdset) texts)
answers-parse_afresh p fdset fdset' text texts =
    let o = message_descriptor p fdset (fresh_once p) in
    let (kept, answer) =
      Resolved-parse p fdset fdset text (fresh_once p) o refl (resolved p fdset) in
    (
      answer,
      ap (answers p fdset' texts) kept ∙ answers-Resolved p fdset fdset' texts o (resolved p fdset),
    )
