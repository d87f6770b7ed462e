-- ===== src/Playbooks/Install.antt =====
-- The shipped playbooks: `load_playbooks` of backend/app/playbooks/loader.py over documents that YAML and the
-- schema have read, and `install_default_playbooks` of backend/app/services/playbooks.py.
use lunatic92i.Common.{
  ℕ, ◌≡◌, inl, inr, refl, ◌∙◌, ap, true, false, Option, none, some, List, [], ◌∷◌, ◌++◌, arith,
  Text, any, subst, any-append, any-snoc_true, All, Bool-cases, ==_refl, text_eq_refl,
}
use lunatic92i.Playbooks.Model.{Playbook, Platform, PlaybookDb}
use lunatic92i.Playbooks.Targets.{get}
use lunatic92i.Playbooks.Service.{
  Answer-cases, List-cases, Answer, ok, err, PlaybookDraft, has_playbook_key, playbook_row,
  unknown_actions, create_playbook,
}

-- What reading a file gives: a complaint about YAML or the schema, or a definition.
pub data Document : Type 0 where
  unreadable : Text → Document
  definition : PlaybookDraft → Document

pub data LoadError : Type 0 where
  bad_document : Text → Text → LoadError
  unknown_actions_in : Text → List Text → LoadError
  duplicate_key : Text → Text → Text → LoadError

-- `LoadResult` and `seen_keys`
pub record LoadResult : Type 0 where
  pub playbooks : List PlaybookDraft
  pub errors : List LoadError
  pub seen_keys : List (Text × Text)

module _ {W D : Type 0} (platform : Platform W D) where
  unfoldable pub load_definition : LoadResult → Text → PlaybookDraft → LoadResult
  unfolding unknown_actions get
  load_definition r path draft = elim (unknown_actions platform draft.steps) [
    | name ∷ more ↦ record r { errors = r.errors ++ unknown_actions_in path (name ∷ more) ∷ [] }
    | [] ↦ elim (get draft.key r.seen_keys) [
      | some other ↦ record r { errors = r.errors ++ duplicate_key path draft.key other ∷ [] }
      | none ↦ record {
        playbooks = r.playbooks ++ draft ∷ [];
        errors = r.errors;
        seen_keys = (draft.key, path) ∷ r.seen_keys;
      }
    ]
  ]

  unfoldable pub load_document : LoadResult → Text × Document → LoadResult
  unfolding load_definition
  load_document r (path, unreadable complaint) = record r {
    errors = r.errors ++ bad_document path complaint ∷ [];
  }
  load_document r (path, definition draft) = load_definition r path draft

  unfoldable pub load_playbooks : LoadResult → List (Text × Document) → LoadResult
  unfolding load_document
  load_playbooks r [] = r
  load_playbooks r (doc ∷ docs) = load_playbooks (load_document r doc) docs

  -- The loop over the definitions, each with the id that a new row would get. An exception leaves `before`.
  unfoldable pub install_all :
      PlaybookDb W D
      → PlaybookDb W D
      → ℕ
      → Option ℕ
      → List Text
      → List (PlaybookDraft × ℕ)
      → Answer (List Text) × PlaybookDb W D
  unfolding any create_playbook
  install_all before db tenant actor installed [] = (ok installed, db)
  install_all before db tenant actor installed ((draft, fresh_id) ∷ more) =
      elim (any (has_playbook_key tenant draft.key) db.playbooks) [
        | true ↦ install_all before db tenant actor installed more
        | false ↦
            let (made, after) = create_playbook platform db tenant draft actor none fresh_id in
            elim made [
              | err e ↦ (err e, before)
              | ok row ↦ install_all before after tenant actor (installed ++ draft.key ∷ []) more
            ]
      ]

  -- `install_default_playbooks`, with the definitions of a load without errors.
  unfoldable pub install_default_playbooks :
      PlaybookDb W D → ℕ → Option ℕ → List (PlaybookDraft × ℕ) → Answer (List Text) × PlaybookDb W D
  unfolding install_all
  install_default_playbooks db tenant actor drafts = install_all db db tenant actor [] drafts

  abbrev pub IsInstalled : ℕ → PlaybookDb W D → PlaybookDraft × ℕ → Type 0
  IsInstalled tenant db entry = any (has_playbook_key tenant entry.0.key) db.playbooks ≡ true

  -- A definition whose key is there is skipped.
  install_all-skip :
      (before db : PlaybookDb W D) (tenant : ℕ) (actor : Option ℕ)
      (drafts : List (PlaybookDraft × ℕ))
      → All (IsInstalled tenant db) drafts
      → install_all before db tenant actor [] drafts ≡ (ok [], db)
  unfolding install_all
  install_all-skip before db tenant actor [] h = refl
  install_all-skip before db tenant actor ((draft, fresh_id) ∷ more) h =
      rw (h.0, install_all) (install_all-skip before db tenant actor more h.1)

  Created : PlaybookDb W D → Playbook → PlaybookDb W D → Type 0
  Created db row after = after.playbooks ≡ db.playbooks ++ row ∷ []

  create_playbook-Created :
      (db : PlaybookDb W D) (tenant : ℕ) (draft : PlaybookDraft) (actor : Option ℕ) (fresh_id : ℕ)
      (row : Playbook)
      → (create_playbook platform db tenant draft actor none fresh_id).0 ≡ ok row
      → Created db
          (playbook_row tenant draft actor fresh_id)
          (create_playbook platform db tenant draft actor none fresh_id).1
  unfolding create_playbook Created
  create_playbook-Created db tenant draft actor fresh_id row h =
      elim (Bool-cases (any (has_playbook_key tenant draft.key) db.playbooks)) [
        | inl t ↦ absurd (ground (arith, rw (t, create_playbook) at h))
        | inr t ↦
            let h1 = rw (t, create_playbook) at h in
            rw (t, create_playbook)
              (elim (List-cases (unknown_actions platform draft.steps)) [
                | inl e ↦ rw (e, create_playbook) refl
                | inr (name, more, e) ↦ absurd (ground (arith, rw (e, create_playbook) at h1))
              ])
      ]

  -- No key gets lost.
  abbrev Keeps : PlaybookDb W D → PlaybookDb W D → Type 0
  Keeps db after =
      (tenant : ℕ) (key : Text)
      → any (has_playbook_key tenant key) db.playbooks ≡ true
      → any (has_playbook_key tenant key) after.playbooks ≡ true

  Created-Keeps :
      (db : PlaybookDb W D) (row : Playbook) (after : PlaybookDb W D)
      → Created db row after
      → Keeps db after
  unfolding Created
  Created-Keeps db row after e tenant key h =
      rw e (any-append (has_playbook_key tenant key) db.playbooks (row ∷ []) ∙ rw h refl)

  Created-has :
      (db : PlaybookDb W D) (tenant : ℕ) (draft : PlaybookDraft) (actor : Option ℕ) (fresh_id : ℕ)
      (after : PlaybookDb W D)
      → Created db (playbook_row tenant draft actor fresh_id) after
      → any (has_playbook_key tenant draft.key) after.playbooks ≡ true
  unfolding Created
  Created-has db tenant draft actor fresh_id after e = rw e (
      any-snoc_true (has_playbook_key tenant draft.key) db.playbooks _
        (unfold playbook_row in rw (==_refl tenant, text_eq_refl draft.key) refl))

  install_all-IsInstalled :
      (before db after : PlaybookDb W D) (tenant : ℕ) (actor : Option ℕ)
      (installed names : List Text) (drafts : List (PlaybookDraft × ℕ))
      → install_all before db tenant actor installed drafts ≡ (ok names, after)
      → Keeps db after × All (IsInstalled tenant after) drafts
  unfolding install_all
  install_all-IsInstalled before db after tenant actor installed names [] h =
      (subst (Keeps db) (ap (λ r. r.1) h) (λ t k e. e), tt)
  install_all-IsInstalled before db after tenant actor installed names ((draft, fresh_id) ∷ more)
        h =
      elim (Bool-cases (any (has_playbook_key tenant draft.key) db.playbooks)) [
        | inl t ↦
            let (keeps, rest) =
              install_all-IsInstalled before db after tenant actor installed names more
                (rw (t, install_all) at h) in
            (keeps, (keeps tenant draft.key t, rest))
        | inr t ↦
            let h1 = rw (t, install_all) at h in
            let (made, mid) = create_playbook platform db tenant draft actor none fresh_id in
            elim (Answer-cases made) [
              | inl (x, e) ↦
                  let wrong : err x ≡ ok names = ap (λ r. r.0) (rw (e, install_all) at h1) in
                  absurd (ground arith)
              | inr (row, e) ↦
                  let created = create_playbook-Created db tenant draft actor fresh_id row e in
                  let (keeps, rest) =
                    install_all-IsInstalled before mid after tenant actor
                      (installed ++ draft.key ∷ []) names more (rw (e, install_all) at h1) in
                  (
                    λ t k there. keeps t k (Created-Keeps db _ mid created t k there),
                    (
                      keeps tenant draft.key
                          (Created-has db tenant draft actor fresh_id mid created),
                      rest,
                    ),
                  )
            ]
      ]

  -- Installing the shipped playbooks is idempotent: once it has succeeded, installing the same definitions
  -- again, whoever asks, installs none and changes nothing.
  pub install_default_playbooks_twice :
      (db after : PlaybookDb W D) (tenant : ℕ) (actor again : Option ℕ) (names : List Text)
      (drafts : List (PlaybookDraft × ℕ))
      → install_default_playbooks db tenant actor drafts ≡ (ok names, after)
      → install_default_playbooks after tenant again drafts ≡ (ok [], after)
  unfolding install_default_playbooks
  install_default_playbooks_twice db after tenant actor again names drafts h =
      install_all-skip after after tenant again drafts
        (install_all-IsInstalled db db after tenant actor [] names drafts h).1
