-- ===== src/Window/Honest.antt =====
-- A window cache whose entries say what the X server would answer.
use keyfrog.Base.{
  ℕ, ℤ, pos, ◌≡◌, refl, sym, ap, ◌∙◌, inl, inr, true, some, ◌==◌, ==_iff, eq_ℤ, arith, Option-cases,
  Bool-cases, subst,
}
use keyfrog.Base.Text.{Text}
use keyfrog.Base.Key.{nat_key}
use keyfrog.Base.Map.{find, insert, find-insert, find-insert_self}
use keyfrog.Window.Server.{XServer}
use keyfrog.Window.{
  KfWindow, new_window, new_cache, KfWindowCache, at, resolve_class_name, resolve_client_pid,
  fetch_class_name, fetch_client_pid, find_and_use_window, invalidate_entry,
}
use keyfrog.Window.Cache.{info_of, invalidate_entry-find_and_use_window}

module _ (server : XServer) (fuel : ℕ) where
  -- What an entry keeps is what the walks of its window give.
  abbrev pub Agrees : ℕ → KfWindow → Type 0
  Agrees w info =
      (info.class_name_ok ≡ true → resolve_class_name server fuel w ≡ some info.class_name)
      × (info.client_pid_ok ≡ true → resolve_client_pid server fuel w ≡ some info.client_pid)

  abbrev pub IsHonest : KfWindowCache → Type 0
  IsHonest cache = (w : ℕ) (info : KfWindow) → info_of w cache ≡ some info → Agrees w info

  -- The window is current, and has an entry.
  abbrev pub Uses : ℕ → KfWindowCache → Type 0
  Uses w cache = (cache.current ≡ at w) × ((info : KfWindow) × (info_of w cache ≡ some info))

  insert-IsHonest :
      (w : ℕ) (info : KfWindow) (cache : KfWindowCache)
      → Agrees w info
      → IsHonest cache
      → IsHonest (record cache { windows = insert w info cache.windows })
  insert-IsHonest w info cache new h v i e = elim (Bool-cases (w == v)) [
    | inl same ↦
        let here : some info ≡ some i =
          sym (find-insert w v info cache.windows ∙ rw same refl) ∙ e in
        let is : info ≡ i = ground (arith, here) in
        subst (λ (x : ℕ). Agrees x i) ((==_iff w v).0 same) (subst (Agrees w) is new)
    | inr other ↦ h v i (ground (arith, find-insert w v info cache.windows))
  ]

  pub find_and_use_window-IsHonest :
      (w : ℕ) (cache : KfWindowCache)
      → IsHonest cache
      → Uses w (find_and_use_window w cache) × IsHonest (find_and_use_window w cache)
  unfolding find_and_use_window
  find_and_use_window-IsHonest w cache h = elim (Option-cases (find w cache.windows)) [
    | inl absent ↦
        let empty : Agrees w new_window = ((λ e. cc e), (λ e. cc e)) in
        rw (absent, find_and_use_window)
          (
            (refl, (new_window, find-insert_self w new_window cache.windows)),
            insert-IsHonest w new_window cache empty h,
          )
    | inr (info, present) ↦ rw (present, find_and_use_window) ((refl, (info, present)), h)
  ]

  pub fetch_class_name-IsHonest :
      (w : ℕ) (cache : KfWindowCache) (name : Text)
      → Uses w cache
      → IsHonest cache
      → resolve_class_name server fuel w ≡ some name
      → (after : KfWindowCache) × (fetch_class_name server fuel cache ≡ some (name, after))
        × Uses w after
        × IsHonest after
  unfolding fetch_class_name
  fetch_class_name-IsHonest w cache name (is, (info, found)) h e =
      let info' : KfWindow = record info { class_name = name; class_name_ok = true } in
      elim (Bool-cases info.class_name_ok) [
        | inl known ↦
            let kept : some info.class_name ≡ some name = sym ((h w info found).0 known) ∙ e in
            (cache, ground (arith, is, found, kept), (is, (info, found)), h)
        | inr new ↦ (
          record cache { windows = insert w info' cache.windows },
          ground (arith, is, found),
          (is, (info', find-insert_self w info' cache.windows)),
          insert-IsHonest w info' cache ((λ _. e), (h w info found).1) h,
        )
      ]

  pub fetch_client_pid-IsHonest :
      (w : ℕ) (cache : KfWindowCache) (pid : ℤ)
      → Uses w cache
      → IsHonest cache
      → resolve_client_pid server fuel w ≡ some pid
      → (after : KfWindowCache) × (fetch_client_pid server fuel cache ≡ some (pid, after))
        × Uses w after
        × IsHonest after
  unfolding fetch_client_pid
  fetch_client_pid-IsHonest w cache pid (is, (info, found)) h e =
      let info' : KfWindow = record info { client_pid = pid; client_pid_ok = true } in
      elim (Bool-cases info.client_pid_ok) [
        | inl known ↦
            let kept : some info.client_pid ≡ some pid = sym ((h w info found).1 known) ∙ e in
            (cache, ground (arith, is, found, kept), (is, (info, found)), h)
        | inr new ↦ elim (Bool-cases (eq_ℤ pid (pos 0))) [
          | inl zero_pid ↦ (cache, ground (arith, is, found), (is, (info, found)), h)
          | inr proper ↦ (
            record cache { windows = insert w info' cache.windows },
            ground (arith, is, found),
            (is, (info', find-insert_self w info' cache.windows)),
            insert-IsHonest w info' cache ((h w info found).0, (λ _. e)) h,
          )
        ]
      ]

  -- An entry that is forgotten leaves the others as they were.
  pub invalidate_entry-IsHonest :
      (w : ℕ) (cache after : KfWindowCache)
      → IsHonest cache
      → invalidate_entry (find_and_use_window w cache) ≡ some after
      → IsHonest after
  invalidate_entry-IsHonest w cache after h e v info found =
      let (after', e', _, same) = invalidate_entry-find_and_use_window w v cache in
      let is : after' ≡ after = ground (arith, e, e') in
      let told : info_of v after' ≡ some info = ap (info_of v) is ∙ found in
      let still : info_of v cache ≡ some info = elim (Bool-cases (w == v)) [
        | inl gone ↦ absurd (ground (arith, same, gone, told))
        | inr other ↦ sym (same ∙ rw other refl) ∙ told
      ] in
      h v info still

  pub new_cache-IsHonest : IsHonest new_cache
  unfolding find
  new_cache-IsHonest w info found = cc found
