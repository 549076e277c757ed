-- ===== src/Db/Migrations/Resume.antt =====
-- Migrations that are interrupted and run again.
use keypooler.Base.{
  ℕ, suc, ◌≡◌, refl, sym, ap, ◌∙◌, subst, Bool, true, false, ◌&&◌, Option, none, some, List, [],
  ◌∷◌, arith,
}
use keypooler.Base.Int.{ℤ, pos, negsuc, leb_ℤ}
use keypooler.Crypto.{Bytes}
use keypooler.Db.Postgres.Spend.{Ending, works, refuses, loses_reply}
use keypooler.Db.Migrations.{
  Migration, Entry, load_migrations, run_migrations, run_loaded, contains, Schema, RunError,
  failed_at, recorded, execute_migration, run_one, run_all,
}

abbrev same_version : ℤ → ℤ → Bool
same_version v x = leb_ℤ v x && leb_ℤ x v

abbrev pub Differs : ℤ → List Migration → Type 0
Differs v [] = Unit
Differs v (k ∷ ks) = (same_version k.version v ≡ false) × Differs v ks

-- No two files have one version.
abbrev pub Apart : List Migration → Type 0
Apart [] = Unit
Apart (m ∷ ms) = Differs m.version ms × Apart ms

abbrev pub calm : ℕ → Ending
calm n = works

module _ {D : Type 0} (script : D → Bytes → Option D) where
  abbrev add_version : Schema D → ℤ → D → Schema D
  add_version s v d = record { tables = d; versions = v ∷ s.versions }

  abbrev catch_one :
      Bool
      → Option D
      → (Schema D → Schema D × Option RunError)
      → Schema D
      → ℤ
      → Schema D × Option RunError
  catch_one true d rest s v = rest s
  catch_one false none rest s v = (s, some (failed_at v))
  catch_one false (some d) rest s v = rest (add_version s v d)

  -- What a run means to do: what the schema has not had yet, in order, up to the first script that fails.
  unfoldable pub catch_up : Schema D → List Migration → Schema D × Option RunError
  catch_up s [] = (s, none)
  catch_up s (m ∷ ms) =
      catch_one (contains m.version s.versions) (script s.tables m.sql) (λ s'. catch_up s' ms) s
        m.version

  -- The versions read at the start tell of the files that are left what the table tells now.
  abbrev Agree : List ℤ → Schema D → List Migration → Type 0
  Agree applied s [] = Unit
  Agree applied s (m ∷ ms) =
      (contains m.version applied ≡ contains m.version s.versions) × Agree applied s ms

  start-Agree : (s : Schema D) (ms : List Migration) → Agree s.versions s ms
  start-Agree s [] = tt
  start-Agree s (m ∷ ms) = (refl, start-Agree s ms)

  add-Agree :
      (applied : List ℤ) (s : Schema D) (v : ℤ) (d : D) (ms : List Migration)
      → Differs v ms
      → Agree applied s ms
      → Agree applied (add_version s v d) ms
  unfolding contains
  add-Agree applied s v d [] differs a = tt
  add-Agree applied s v d (m ∷ ms) differs a =
      (ground (arith, a.0), add-Agree applied s v d ms differs.1 a.1)

  -- One round of a run, by whether the version had been applied and what the script does.
  run_one_calm :
      (b : Bool) (o : Option D) (f g : Schema D → Schema D × Option RunError) (s : Schema D) (v : ℤ)
      → (b ≡ true → f s ≡ g s)
      → ((d : D) → f (add_version s v d) ≡ g (add_version s v d))
      → run_one script b (recorded script works s v o b) f s v ≡ catch_one b o g s v
  run_one_calm true o f g s v h k = h refl
  run_one_calm false none f g s v h k = refl
  run_one_calm false (some d) f g s v h k = k d

  run_all-catch_up :
      (ms : List Migration) (n : ℕ) (applied : List ℤ) (s : Schema D)
      → Apart ms
      → Agree applied s ms
      → run_all script calm n applied s ms ≡ catch_up s ms
  unfolding run_all catch_up execute_migration
  run_all-catch_up [] n applied s apart a = refl
  run_all-catch_up (m ∷ ms) n applied s apart a =
      ap
        (λ b.
          run_one script b
            (recorded script works s m.version (script s.tables m.sql)
              (contains m.version s.versions))
            (λ s'. run_all script calm (suc n) applied s' ms) s m.version)
        a.0
      ∙ run_one_calm (contains m.version s.versions) (script s.tables m.sql)
          (λ s'. run_all script calm (suc n) applied s' ms) (λ s'. catch_up s' ms) s m.version
          (λ e. run_all-catch_up ms (suc n) applied s apart.1 a.1)
          (λ d.
            run_all-catch_up ms (suc n) applied (add_version s m.version d) apart.1
              (add-Agree applied s m.version d ms apart.0 a.1))

  -- A version that is recorded stays so.
  one-contains :
      (b taken : Bool) (ending : Ending) (o : Option D) (f : Schema D → Schema D × Option RunError)
      (s : Schema D) (v w : ℤ)
      → contains w s.versions ≡ true
      → ((s' : Schema D) → contains w s'.versions ≡ true → contains w (f s').0.versions ≡ true)
      → contains w (run_one script b (recorded script ending s v o taken) f s v).0.versions ≡ true
  unfolding contains
  one-contains true taken ending o f s v w h k = k s h
  one-contains false taken refuses o f s v w h k = h
  one-contains false taken works none f s v w h k = h
  one-contains false true works (some d) f s v w h k = h
  one-contains false false works (some d) f s v w h k = k (add_version s v d) (ground (arith, h))
  one-contains false taken loses_reply none f s v w h k = h
  one-contains false true loses_reply (some d) f s v w h k = h
  one-contains false false loses_reply (some d) f s v w h k = ground (arith, h)

  run_all-contains :
      (ms : List Migration) (ends : ℕ → Ending) (n : ℕ) (applied : List ℤ) (s : Schema D) (w : ℤ)
      → contains w s.versions ≡ true
      → contains w (run_all script ends n applied s ms).0.versions ≡ true
  unfolding run_all execute_migration
  run_all-contains [] ends n applied s w h = h
  run_all-contains (m ∷ ms) ends n applied s w h =
      one-contains (contains m.version applied) (contains m.version s.versions) (ends n)
        (script s.tables m.sql) (λ s'. run_all script ends (suc n) applied s' ms) s m.version w h
        (λ s'. run_all-contains ms ends (suc n) applied s' w)

  added-contains : (s : Schema D) (v : ℤ) (d : D) → contains v (add_version s v d).versions ≡ true
  unfolding contains
  added-contains s (pos n) d = ground (arith)
  added-contains s (negsuc n) d = ground (arith)

  -- A round that is run again, however it first ended; `b` and `o` are what the table and the script say of it.
  again_one :
      (m : Migration) (ms : List Migration) (b : Bool) (ending : Ending) (o : Option D)
      (f : Schema D → Schema D × Option RunError) (s : Schema D)
      → contains m.version s.versions ≡ b
      → script s.tables m.sql ≡ o
      → (b ≡ true → catch_up (f s).0 ms ≡ catch_up s ms)
      → ((d : D)
          → catch_up (f (add_version s m.version d)).0 ms ≡ catch_up (add_version s m.version d) ms)
      → ((s' : Schema D)
          → contains m.version s'.versions ≡ true
          → contains m.version (f s').0.versions ≡ true)
      → catch_up
          (run_one script b (recorded script ending s m.version o b) f s m.version).0
          (m ∷ ms)
        ≡ catch_one b o (λ s'. catch_up s' ms) s m.version
  unfolding catch_up
  again_one m ms true ending o f s e g h k grows =
      ap (λ c. catch_one c (script (f s).0.tables m.sql) (λ s'. catch_up s' ms) (f s).0 m.version)
        (grows s e)
      ∙ h refl
  again_one m ms false refuses o f s e g h k grows =
      ap (λ c. catch_one c (script s.tables m.sql) (λ s'. catch_up s' ms) s m.version) e
      ∙ ap (λ c. catch_one false c (λ s'. catch_up s' ms) s m.version) g
  again_one m ms false works none f s e g h k grows =
      ap (λ c. catch_one c (script s.tables m.sql) (λ s'. catch_up s' ms) s m.version) e
      ∙ ap (λ c. catch_one false c (λ s'. catch_up s' ms) s m.version) g
  again_one m ms false works (some d) f s e g h k grows =
      let done = (f (add_version s m.version d)).0 in
      ap (λ c. catch_one c (script done.tables m.sql) (λ s'. catch_up s' ms) done m.version)
        (grows (add_version s m.version d) (added-contains s m.version d))
      ∙ k d
  again_one m ms false loses_reply none f s e g h k grows =
      ap (λ c. catch_one c (script s.tables m.sql) (λ s'. catch_up s' ms) s m.version) e
      ∙ ap (λ c. catch_one false c (λ s'. catch_up s' ms) s m.version) g
  again_one m ms false loses_reply (some d) f s e g h k grows =
      ap
        (λ c.
          catch_one c (script d m.sql) (λ s'. catch_up s' ms) (add_version s m.version d) m.version)
        (added-contains s m.version d)

  catch_up-run_all :
      (ms : List Migration) (ends : ℕ → Ending) (n : ℕ) (applied : List ℤ) (s : Schema D)
      → Apart ms
      → Agree applied s ms
      → catch_up (run_all script ends n applied s ms).0 ms ≡ catch_up s ms
  unfolding run_all execute_migration catch_up
  catch_up-run_all [] ends n applied s apart a = refl
  catch_up-run_all (m ∷ ms) ends n applied s apart a =
      ap
        (λ b.
          catch_up
            (run_one script b
              (recorded script (ends n) s m.version (script s.tables m.sql)
                (contains m.version s.versions))
              (λ s'. run_all script ends (suc n) applied s' ms) s m.version).0
            (m ∷ ms))
        a.0
      ∙ again_one m ms (contains m.version s.versions) (ends n) (script s.tables m.sql)
          (λ s'. run_all script ends (suc n) applied s' ms) s refl refl
          (λ e. catch_up-run_all ms ends (suc n) applied s apart.1 a.1)
          (λ d.
            catch_up-run_all ms ends (suc n) applied (add_version s m.version d) apart.1
              (add-Agree applied s m.version d ms apart.0 a.1))
          (λ s'. run_all-contains ms ends (suc n) applied s' m.version)

  run_all-resumes :
      (ms : List Migration) (ends : ℕ → Ending) (s : Schema D)
      → Apart ms
      → let s' = (run_all script ends 0 s.versions s ms).0 in
        (run_all script calm 0 s.versions s ms ≡ catch_up s ms)
        × (run_all script calm 0 s'.versions s' ms ≡ run_all script calm 0 s.versions s ms)
  run_all-resumes ms ends s apart =
      let s' = (run_all script ends 0 s.versions s ms).0 in
      let whole = run_all-catch_up ms 0 s.versions s apart (start-Agree s ms) in
      (
        whole,
        run_all-catch_up ms 0 s'.versions s' apart (start-Agree s' ms)
            ∙ (catch_up-run_all ms ends 0 s.versions s apart (start-Agree s ms) ∙ sym whole),
      )

  -- Where the files can be loaded and no two have one version: a start in which every statement works does what it
  -- means to do, the files that the table does not list, in order, up to the first script that fails. And a start that
  -- was cut short anywhere, by a transaction that failed or by one that was committed and lost its answer, is made good by the
  -- next such start: tables, versions and result are as if nothing had happened.
  pub run_migrations-resumes :
      (entries : Option (List Entry)) (ms : List Migration) (ends : ℕ → Ending) (s : Schema D)
      → load_migrations entries ≡ some ms
      → Apart ms
      → let s' = (run_migrations script true true ends s entries).0 in
        (run_migrations script true true calm s entries ≡ catch_up s ms)
        × (run_migrations script true true calm s' entries
            ≡ run_migrations script true true calm s entries)
  unfolding run_migrations
  run_migrations-resumes entries ms ends s loaded apart =
      subst
        (λ o.
          let s' = (run_loaded script ends true s o).0 in
          (run_loaded script calm true s o ≡ catch_up s ms)
          × (run_loaded script calm true s' o ≡ run_loaded script calm true s o))
        (sym loaded) (run_all-resumes ms ends s apart)
