-- ===== src/Fujifs/Open/Table.antt =====
-- Which handles are open after `fujifs_open` and `fujifs_close`.
use fujinet_msdos.Base.{
  ℕ, zero, suc, ◌+◌, ◌-◌, ◌≤◌, ◌<◌, ◌≡◌, ◌≢◌, refl, ap, ◌∙◌, sym, Bool, true, false, not, ◌&&◌,
  ◌||◌, inl, inr, none, some, List, [], ◌∷◌, arith, length, replicate, ◌⊎◌, get_or, set, ltb, ◌==◌,
  if◌then◌else◌, Bool-cases, Option-cases,
}
use fujinet_msdos.Fujifs.{
  Handle, FujiBus, Fuji, PathArg, netdev_total, blank_handle, service_not_available,
  no_device_available, write_mode, first_free, fn_handle, set_handle, set_open, init_handles,
  fujifs_find_handle, is_connected, write_cmd, read_status, network_success, status_length,
}
use fujinet_msdos.Fujifs.Open.{
  open_error, with_error, open_result, authorise, inherit, open_named, fujifs_open, fujifs_close,
}

-- Which handles are open.
abbrev pub flags_of_handles : List Handle → List Bool
flags_of_handles [] = []
flags_of_handles (h ∷ hs) = h.is_open ∷ flags_of_handles hs

abbrev pub flags : {W : Type 0} → Fuji W → List Bool
flags s = flags_of_handles s.handles

-- The table has been cleared and has 8 handles.
pub record IsTable {W : Type 0} (s : Fuji W) : Type 0 where
  pub size_is : length s.handles ≡ netdev_total
  pub ready : s.did_init ≡ true

flags-set :
    (hs : List Handle) (i : ℕ) (h : Handle)
    → flags_of_handles (set hs i h) ≡ set (flags_of_handles hs) i h.is_open
flags-set [] i h = refl
flags-set (x ∷ xs) zero h = refl
flags-set (x ∷ xs) (suc i) h = ap (◌∷◌ x.is_open) (flags-set xs i h)

set_same :
    (hs : List Handle) (i : ℕ) (d : Handle)
    → set (flags_of_handles hs) i (get_or hs i d).is_open ≡ flags_of_handles hs
set_same [] i d = refl
set_same (x ∷ xs) zero d = refl
set_same (x ∷ xs) (suc i) d = ap (◌∷◌ x.is_open) (set_same xs i d)

-- A handle that is written back with its flag as it was.
flags_kept :
    {W : Type 0} (x : ℕ) (h : Handle) (s : Fuji W)
    → h.is_open ≡ (fn_handle s x).is_open
    → flags (set_handle x h s) ≡ flags s
flags_kept x h s e = flags-set s.handles (x - 1) h ∙ rw e (set_same s.handles (x - 1) blank_handle)

first_free_lem :
    (hs : List Handle) {i : ℕ}
    → first_free hs ≡ some i
    → (i < length hs) × (get_or (flags_of_handles hs) i true ≡ false)
unfolding first_free
first_free_lem [] e = absurd cc
first_free_lem (h ∷ hs) {i} e = elim (Bool-cases h.is_open) [
  | inr free ↦
      let found : some 0 ≡ some i = rw (first_free, free) at e in
      let first : i ≡ 0 = cc in rw first (omega arith, free)
  | inl busy ↦ elim (Option-cases (first_free hs)) [
    | inl full ↦ let found : none ≡ some i = rw (first_free, busy, full) at e in absurd cc
    | inr (j, f) ↦
        let (within, free) = first_free_lem hs f in
        let found : some (j + 1) ≡ some i = rw (first_free, busy, f) at e in
        let next : i ≡ j + 1 = cc in
        let after : i ≡ suc j = omega arith in rw after (omega arith, free)
  ]
]

set_back : (fs : List Bool) (i : ℕ) → get_or fs i true ≡ false → set (set fs i true) i false ≡ fs
set_back [] i e = refl
set_back (b ∷ bs) zero e = ap (λ x. x ∷ bs) (sym e)
set_back (b ∷ bs) (suc i) e = ap (◌∷◌ b) (set_back bs i e)

-- A number whose handle was not open.
pub record IsNew {W : Type 0} (s : Fuji W) (x : ℕ) : Type 0 where
  pub pos : 1 ≤ x
  pub within : x ≤ netdev_total
  pub was_free : get_or (flags s) (x - 1) true ≡ false

-- The four ways in which an opening ends: no handle is free; the new handle is open; the host has
-- refused, and the handle is free again; the directory of the host could not be had, and the handle
-- stays open.
pub data OpenEnd {W : Type 0} (s : Fuji W) (err x : ℕ) (s' : Fuji W) : Type 0 where
  exhausted : err ≡ no_device_available → x ≡ 0 → s' ≡ s → OpenEnd s err x s'
  opened : err ≡ 0 → IsNew s x → flags s' ≡ set (flags s) (x - 1) true → OpenEnd s err x s'
  refused : 1 < err → IsNew s x → flags s' ≡ flags s → OpenEnd s err x s'
  stranded :
      err ≡ service_not_available
      → IsNew s x
      → flags s' ≡ set (flags s) (x - 1) true
      → OpenEnd s err x s'

abbrev pub Ends : {W : Type 0} → Fuji W → ℕ × ℕ × Fuji W → Type 0
Ends s r = OpenEnd s r.0 r.1 r.2

-- What is known of the handle that is found.
pub data Found {W : Type 0} (s : Fuji W) (r : ℕ × Fuji W) : Type 0 where
  none_free : r ≡ (0, s) → Found s r
  taken : (x : ℕ) → IsNew s x → r ≡ (x, set_open x true s) → Found s r

init_handles_ready : {W : Type 0} (s : Fuji W) → s.did_init ≡ true → init_handles s ≡ s
unfolding init_handles
init_handles_ready s e =
    ap
      (λ b.
        if b
        then s
        else record s { handles = replicate netdev_total blank_handle; did_init = true })
      e

find_handle-Found : {W : Type 0} (s : Fuji W) → IsTable s → Found s (fujifs_find_handle s)
unfolding fujifs_find_handle
find_handle-Found s v =
    let ready = init_handles_ready s v.ready in
    elim (Option-cases (first_free s.handles)) [
      | inl full ↦ none_free (rw (fujifs_find_handle, ready, full) (ap (λ t. (0, t)) ready))
      | inr (i, e) ↦
          let (within, free) = first_free_lem s.handles e in
          let size = v.size_is in
          let same : i + 1 - 1 ≡ i = omega arith in
          taken (i + 1)
            (record { pos = omega arith; within = omega arith; was_free = rw same free })
            (rw (fujifs_find_handle, ready, e) (ap (λ t. (i + 1, set_open (i + 1) true t)) ready))
    ]

module _ {W : Type 0} (bus : FujiBus W) where
  authorise_flags : (host x : ℕ) (s : Fuji W) → flags (authorise bus host x s) ≡ flags s
  unfolding authorise write_cmd
  authorise_flags host x s =
      elim (Bool-cases (
        not (length (fn_handle s host).user == 0)
        && (not (fn_handle s x).did_auth || not (host == (fn_handle s x).parent)))) [
          | inl sent ↦ rw (authorise, sent) (flags_kept x _ s refl)
          | inr known ↦ rw (authorise, known) refl
        ]

  inherit_flags :
      (host x : ℕ) (path : PathArg) (s : Fuji W) → flags (inherit bus host x path s).1 ≡ flags s
  unfolding inherit write_cmd
  inherit_flags host x path s = ground arith

  set_open_flags :
      (x : ℕ) (b : Bool) (s : Fuji W) → flags (set_open x b s) ≡ set (flags s) (x - 1) b
  unfolding set_open
  set_open_flags x b s = flags-set s.handles (x - 1) _

  -- What a request leaves of the flags: those that were, less that of the handle where it is refused.
  abbrev Result : ℕ → List Bool → ℕ × Fuji W → Type 0
  Result x fs r = ((r.0 ≡ 0) × (flags r.1 ≡ fs)) ⊎ ((1 < r.0) × (flags r.1 ≡ set fs (x - 1) false))

  open_result_flags :
      (host x mode : ℕ) (s : Fuji W) → Result x (flags s) (open_result bus host x mode s)
  unfolding open_result with_error
  open_result_flags host x mode s = elim (Bool-cases (mode == write_mode)) [
    | inl writing ↦ rw (open_result, writing) (inl (refl, flags_kept x _ s refl))
    | inr other ↦
        elim (Bool-cases
          (ltb network_success (open_error bus s) && (status_length (with_error bus s) == 0))) [
            | inl bad ↦
                rw (open_result, other, bad)
                  (inr (ground arith, set_open_flags x false (with_error bus s)))
            | inr good ↦
                rw (open_result, other, good) (inl (refl, flags_kept x _ (with_error bus s) refl))
          ]
  ]

  open_named_flags :
      (host x : ℕ) (path : PathArg) (mode : ℕ) (s : Fuji W)
      → Result x (flags s) (open_named bus host x path mode s)
  unfolding open_named read_status
  open_named_flags host x path mode s = open_result_flags host x mode _

  -- From the flags with the new handle open to those at the end.
  named-OpenEnd :
      (s : Fuji W) (x : ℕ) (r : ℕ × Fuji W)
      → IsNew s x
      → Result x (set (flags s) (x - 1) true) r
      → OpenEnd s r.0 x r.1
  named-OpenEnd s x r v (inl (e, f)) = opened e v f
  named-OpenEnd s x r v (inr (e, f)) = refused e v (f ∙ set_back (flags s) (x - 1) v.was_free)

  -- On a table of 8 handles that has been cleared, whatever the devices do, opening a path ends
  -- in one of four ways: error 216, the handle number 0 and an unchanged state; or the number of
  -- a handle that was not open, with no error and with that handle open beside those that were;
  -- or an error above 1, with the handles open that were open before; or error 210, with the new
  -- handle open beside those that were.
  pub fujifs_open-OpenEnd :
      (host : ℕ) (path : PathArg) (mode : ℕ) (s : Fuji W)
      → IsTable s
      → Ends s (fujifs_open bus host path mode s)
  unfolding fujifs_open
  fujifs_open-OpenEnd host path mode s v = go (find_handle-Found s v)
    where
      go : Found s (fujifs_find_handle s) → Ends s (fujifs_open bus host path mode s)
      go (none_free e) =
          let number = ap (λ r. r.0) e in
          let state = ap (λ r. r.1) e in rw (fujifs_open, number) (exhausted refl refl state)
      go (taken x new e) =
          let number = ap (λ r. r.0) e in
          let state = ap (λ r. r.1) e in
          let pos = new.pos in
          let found : (x == 0) ≡ false = ground arith in
          let s1 = set_open x true s in
          let s2 = authorise bus host x s1 in
          let s3 = (inherit bus host x path s2).1 in
          let s4 = set_handle x (record (fn_handle s3 x) { parent = host }) s3 in
          let taken_flags = set_open_flags x true s in
          let host_flags : flags s3 ≡ set (flags s) (x - 1) true =
            inherit_flags host x path s2 ∙ authorise_flags host x s1 ∙ taken_flags in
          let parent_flags : flags s4 ≡ set (flags s) (x - 1) true =
            flags_kept x _ s3 refl ∙ host_flags in
          elim (Bool-cases (host == 0)) [
            | inl bare ↦
                rw (fujifs_open, number, state, found, bare)
                  (named-OpenEnd s x (open_named bus host x path mode s1) new
                    (rw taken_flags at (open_named_flags host x path mode s1)))
            | inr hosted ↦ elim (Bool-cases (inherit bus host x path s2).0) [
              | inr lost ↦
                  rw (fujifs_open, number, state, found, hosted, lost)
                    (stranded refl new host_flags)
              | inl ok ↦
                  rw (fujifs_open, number, state, found, hosted, ok)
                    (named-OpenEnd s x (open_named bus host x path mode s4) new
                      (rw parent_flags at (open_named_flags host x path mode s4)))
            ]
          ]

  -- Closing a handle that is open gives it back; any other is refused.
  pub fujifs_close_flags :
      (x : ℕ) (s : Fuji W)
      → (((fujifs_close bus x s).0 ≡ 0)
          × (flags (fujifs_close bus x s).1 ≡ set (flags s) (x - 1) false))
        ⊎ (((fujifs_close bus x s).0 ≢ 0) × ((fujifs_close bus x s).1 ≡ s))
  unfolding fujifs_close
  fujifs_close_flags x s = elim (Bool-cases (is_connected s x)) [
    | inl there ↦ rw (fujifs_close, there) (inl (refl, set_open_flags x false _))
    | inr away ↦ rw (fujifs_close, away) (inr (λ e. absurd (omega arith), refl))
  ]
