-- ===== src/Journal/Files/Refinement.antt =====
-- The store of files promises what the store of a process does.
use optimaler_status.Base.{
  ◌≡◌, refl, sym, ap, ◌∙◌, subst, Bool, true, String, List, [], ◌∷◌, ◌++◌, All, inl, inr,
  Bool-cases, str_eq, eq_iff, if◌then◌else◌, arith,
}
use optimaler_status.Base.Dict.{put, get-put}
use optimaler_status.Python.Result.{Result, ok, err}
use optimaler_status.Journal.Events.{Event}
use optimaler_status.Journal.Store.{
  Store, read, check_appendable, append, append_all, set_default, finish,
}
use optimaler_status.Journal.Store.History.{IsHistory, IsJournal, read-set_default}
use optimaler_status.Journal.Store.Append.{Appended, Outcome, append-Outcome, append-finish}
use optimaler_status.Journal.Store.Growth.{
  grown_same, grown_other, Appended-IsHistory, append_all-IsJournal,
}
use optimaler_status.Journal.Projection.Order.{sorted-InSequence}
use optimaler_status.Python.Text.{Text}
use optimaler_status.Journal.Files.{Json, Files, content, read_file, checked_append, append_file}
use optimaler_status.Journal.Files.Lines.{IsPlain, text_of, text_of-append, load_all-text_of}

module _ (j : Json) (safe : String → Bool) where
  -- A sequence of calls of append, refusals included.
  unfoldable pub append_files : Files → List Event → Files
  unfolding append_file
  append_files files [] = files
  append_files files (e ∷ events) = append_files (append_file j safe e files).0 events

  -- The files hold the lines of the events of the store, all of them plain.
  record Represents (files : Files) (store : Store) : Type 0 where
    journal : IsJournal store
    plain : (c : String) → All (IsPlain j) (read store c)
    lines : (c : String) → content files c ≡ text_of j (read store c)

  Represents-read :
      (files : Files) (store : Store) (c : String)
      → Represents files store
      → safe c ≡ true
      → read_file j safe files c ≡ ok (read store c)
  unfolding read_file
  Represents-read files store c h s =
      rw (s, h.lines c, load_all-text_of j (read store c) (h.plain c))
        (ap ok (sorted-InSequence 0 (read store c) (h.journal c).in_sequence))

  pub content-put :
      (files : Files) (key other : String) (text : Text)
      → content (put files key text) other
        ≡ (if str_eq key other then text else content files other)
  unfolding content
  content-put files key other text = ground (arith, get-put files key other text)

  -- The file of the appended event's case is the file of its events, and so are the other files.
  grown_lines :
      (e : Event) (files : Files) (store after : Store)
      → Represents files store
      → Appended e store after
      → (c : String)
      → content (put files e.case_id (content files e.case_id ++ (j.dump e ++ 10 ∷ []))) c
        ≡ text_of j (read after c)
  grown_lines e files store after h a c = elim (Bool-cases (str_eq e.case_id c)) [
    | inl p ↦ rw (content-put, a.grown, p, h.lines, text_of-append) refl
    | inr p ↦ rw (content-put, a.grown, p, h.lines) refl
  ]

  All-append :
      (events : List Event) (e : Event)
      → All (IsPlain j) events
      → IsPlain j e
      → All (IsPlain j) (events ++ e ∷ [])
  All-append [] e h p = (p, tt)
  All-append (x ∷ events) e h p = (h.0, All-append events e h.1 p)

  grown-IsPlain :
      (e : Event) (files : Files) (store after : Store)
      → Represents files store
      → Appended e store after
      → IsPlain j e
      → (c : String) → All (IsPlain j) (read after c)
  grown-IsPlain e files store after h a p c = elim (Bool-cases (str_eq e.case_id c)) [
    | inl q ↦
        subst (λ k. All (IsPlain j) (read after k)) ((eq_iff e.case_id c).0 q)
          (subst (All (IsPlain j)) (sym (grown_same a))
            (All-append (read store e.case_id) e (h.plain e.case_id) p))
    | inr q ↦ subst (All (IsPlain j)) (sym (grown_other a c q)) (h.plain c)
  ]

  -- The two stores after one call, and what the calls returned.
  record Agrees (files : Files × Result Event) (store : Store × Result Event) : Type 0 where
    results : files.1 ≡ store.1
    states : Represents files.0 store.0

  append_file-Agrees :
      (e : Event) (files : Files) (store : Store)
      → Represents files store
      → safe e.case_id ≡ true
      → IsPlain j e
      → Agrees (append_file j safe e files) (append e store)
  unfolding append_file
  append_file-Agrees e files store h s p =
      rw (Represents-read files store e.case_id h s)
        (go (check_appendable e (read store e.case_id)) refl)
    where
      opened : Store
      opened = set_default store e.case_id

      go :
          (r : Result (Unit {0}))
          → check_appendable e (read store e.case_id) ≡ r
          → Agrees (checked_append j e files r) (append e store)
      go (err why) c =
          subst (Agrees (files, err why)) (sym (append-finish e store (err why) c)) (record {
            results = refl;
            states = record {
              journal =
                  λ k. subst (IsHistory k) (sym (read-set_default store e.case_id k)) (h.journal k);
              plain = λ k.
                  subst (All (IsPlain j)) (sym (read-set_default store e.case_id k)) (h.plain k);
              lines = λ k. h.lines k ∙ ap (text_of j) (sym (read-set_default store e.case_id k));
            };
          })
      go (ok tt) c =
          let run = append-finish e store (ok tt) c in
          let after = finish e opened (ok tt) in
          let a : Appended e store after.0 =
            (subst (Outcome e store) run (append-Outcome e store)).1 in
          subst (Agrees (checked_append j e files (ok tt))) (sym run) (record {
            results = refl;
            states = record {
              journal = λ k. Appended-IsHistory a k (h.journal k);
              plain = grown-IsPlain e files store after.0 h a p;
              lines = grown_lines e files store after.0 h a;
            };
          })

  -- Safe ids, and lines that can be read again.
  abbrev pub IsStorable : Event → Type 0
  IsStorable e = (safe e.case_id ≡ true) × IsPlain j e

  append_files-Represents :
      (files : Files) (store : Store) (events : List Event)
      → All IsStorable events
      → Represents files store
      → Represents (append_files files events) (append_all store events)
  unfolding append_files append_all
  append_files-Represents files store [] p h = h
  append_files-Represents files store (e ∷ events) p h =
      append_files-Represents (append_file j safe e files).0 (append e store).0 events p.1
        (append_file-Agrees e files store h p.0.0 p.0.1).states

  empty-Represents : Represents [] []
  unfolding read content append_all
  empty-Represents = record {
    journal = append_all-IsJournal [];
    plain = λ c. tt;
    lines = λ c. refl;
  }

  -- The store of files keeps the promise of the store of a process: where the ids of the cases are
  -- safe, and the JSON of each event is one line that loads to it, the two stores, offered the same
  -- events from the empty state, give the same answer to a further event, the exception included,
  -- and to each read of a safe case.
  pub append_files-Agrees :
      (events : List Event) (e : Event) (case_id : String)
      → All IsStorable events
      → IsStorable e
      → safe case_id ≡ true
      → ((append_file j safe e (append_files [] events)).1 ≡ (append e (append_all [] events)).1)
        × (read_file j safe (append_files [] events) case_id
            ≡ ok (read (append_all [] events) case_id))
  append_files-Agrees events e c p q s =
      let h = append_files-Represents [] [] events p empty-Represents in
      (
        (append_file-Agrees e (append_files [] events) (append_all [] events) h q.0 q.1).results,
        Represents-read (append_files [] events) (append_all [] events) c h s,
      )
