-- ===== src/Worker/Stdin.antt =====
-- What a handler process gets on its stdin: the init note first and once, and each message once.
use goxo.Base.{
  ℕ, suc, ◌≤◌, ◌<◌, ◌≡◌, ◌≢◌, refl, sym, subst, ◌∙◌, ◌⊎◌, inl, inr, arith, Option, none, some, List,
  [], ◌∷◌, ◌++◌, map, nat_Eq,
}
use goxo.Note.Wire.{EngineNote, init, deliver, emit_ack, shutdown, stamp}
use goxo.Worker.State.{OutNote, Config, Proc, Dispatcher, sending, Worker}
use goxo.Worker.Process.{to_note, init_note}
use goxo.Worker.Invariant.{process_of}

-- What is on a process's stdin, or queued for it, in order.
abbrev pub pipe : Proc → List EngineNote
pipe p = p.stdin ++ map (λ n. stamp (to_note n)) p.out

-- Notes behind the init note: delivers with rising ids from `lo` on and below `hi`, and answers to
-- emits.
abbrev pub Rising : ℕ → ℕ → List EngineNote → Type 0
Rising lo hi [] = Unit
Rising lo hi (init n ∷ ns) = ⊥
Rising lo hi (deliver d ∷ ns) = (lo ≤ d.id) × (d.id < hi) × Rising (suc d.id) hi ns
Rising lo hi (emit_ack a ∷ ns) = Rising lo hi ns
Rising lo hi (shutdown n ∷ ns) = ⊥

-- Nothing, or the worker's init note and such notes.
abbrev pub Wired : Config → ℕ → List EngineNote → Type 0
Wired cfg hi [] = Unit
Wired cfg hi (n ∷ ns) = (n ≡ stamp (init (init_note cfg))) × Rising 0 hi ns

pub Rising-mono :
    (lo hi hi' : ℕ) (ns : List EngineNote) → hi ≤ hi' → Rising lo hi ns → Rising lo hi' ns
Rising-mono lo hi hi' [] le r = tt
Rising-mono lo hi hi' (init n ∷ ns) le r = r
Rising-mono lo hi hi' (deliver d ∷ ns) le (a, b, r) =
    (a, omega arith, Rising-mono (suc d.id) hi hi' ns le r)
Rising-mono lo hi hi' (emit_ack a ∷ ns) le r = Rising-mono lo hi hi' ns le r
Rising-mono lo hi hi' (shutdown n ∷ ns) le r = r

pub Wired-mono :
    (cfg : Config) (hi hi' : ℕ) (ns : List EngineNote)
    → hi ≤ hi'
    → Wired cfg hi ns
    → Wired cfg hi' ns
Wired-mono cfg hi hi' [] le w = tt
Wired-mono cfg hi hi' (n ∷ ns) le (e, r) = (e, Rising-mono 0 hi hi' ns le r)

-- A note that may follow.
Rising-append :
    (lo hi hi' : ℕ) (ns : List EngineNote) (n : EngineNote)
    → hi ≤ hi'
    → ((k : ℕ) → (k ≤ lo) ⊎ (k ≤ hi) → Rising k hi' (n ∷ []))
    → Rising lo hi ns
    → Rising lo hi' (ns ++ (n ∷ []))
Rising-append lo hi hi' [] n le ok r = ok lo (inl (omega arith))
Rising-append lo hi hi' (init x ∷ ns) n le ok r = r
Rising-append lo hi hi' (deliver d ∷ ns) n le ok (a, b, r) = (
  a,
  omega arith,
  Rising-append (suc d.id) hi hi' ns n le
      (λ k h. elim h [ inl p ↦ ok k (inr (omega arith)) | inr p ↦ ok k (inr p) ]) r,
)
Rising-append lo hi hi' (emit_ack x ∷ ns) n le ok r = Rising-append lo hi hi' ns n le ok r
Rising-append lo hi hi' (shutdown x ∷ ns) n le ok r = r

pub Wired-append :
    (cfg : Config) (hi hi' : ℕ) (ns : List EngineNote) (n : EngineNote)
    → hi ≤ hi'
    → ((k : ℕ) → (k ≤ 0) ⊎ (k ≤ hi) → Rising k hi' (n ∷ []))
    → ns ≢ []
    → Wired cfg hi ns
    → Wired cfg hi' (ns ++ (n ∷ []))
Wired-append cfg hi hi' [] n le ok some_note w = absurd (some_note refl)
Wired-append cfg hi hi' (x ∷ ns) n le ok _ (e, r) = (e, Rising-append 0 hi hi' ns n le ok r)

Rising-prefix : (lo hi : ℕ) (ns ms : List EngineNote) → Rising lo hi (ns ++ ms) → Rising lo hi ns
Rising-prefix lo hi [] ms r = tt
Rising-prefix lo hi (init n ∷ ns) ms r = r
Rising-prefix lo hi (deliver d ∷ ns) ms (a, b, r) = (a, b, Rising-prefix (suc d.id) hi ns ms r)
Rising-prefix lo hi (emit_ack a ∷ ns) ms r = Rising-prefix lo hi ns ms r
Rising-prefix lo hi (shutdown n ∷ ns) ms r = r

pub Wired-prefix :
    (cfg : Config) (hi : ℕ) (ns ms : List EngineNote) → Wired cfg hi (ns ++ ms) → Wired cfg hi ns
Wired-prefix cfg hi [] ms w = tt
Wired-prefix cfg hi (n ∷ ns) ms (e, r) = (e, Rising-prefix 0 hi ns ms r)

Rising-lower :
    (lo lo' hi : ℕ) (ns : List EngineNote) → lo ≤ lo' → Rising lo' hi ns → Rising lo hi ns
Rising-lower lo lo' hi [] le r = tt
Rising-lower lo lo' hi (init n ∷ ns) le r = r
Rising-lower lo lo' hi (deliver d ∷ ns) le (a, b, r) = (omega arith, b, r)
Rising-lower lo lo' hi (emit_ack a ∷ ns) le r = Rising-lower lo lo' hi ns le r
Rising-lower lo lo' hi (shutdown n ∷ ns) le r = r

-- A note that is lost.
Rising-drop :
    (lo hi : ℕ) (ns : List EngineNote) (n : EngineNote) (ms : List EngineNote)
    → Rising lo hi (ns ++ (n ∷ ms))
    → Rising lo hi (ns ++ ms)
Rising-drop lo hi [] (init n) ms r = absurd r
Rising-drop lo hi [] (deliver d) ms (a, b, r) = Rising-lower lo (suc d.id) hi ms (omega arith) r
Rising-drop lo hi [] (emit_ack a) ms r = r
Rising-drop lo hi [] (shutdown n) ms r = absurd r
Rising-drop lo hi (init x ∷ ns) n ms r = r
Rising-drop lo hi (deliver d ∷ ns) n ms (a, b, r) = (a, b, Rising-drop (suc d.id) hi ns n ms r)
Rising-drop lo hi (emit_ack a ∷ ns) n ms r = Rising-drop lo hi ns n ms r
Rising-drop lo hi (shutdown x ∷ ns) n ms r = r

pub Wired-drop :
    (cfg : Config) (hi : ℕ) (ns : List EngineNote) (n : EngineNote) (ms : List EngineNote)
    → ns ≢ []
    → Wired cfg hi (ns ++ (n ∷ ms))
    → Wired cfg hi (ns ++ ms)
Wired-drop cfg hi [] n ms begun w = absurd (begun refl)
Wired-drop cfg hi (x ∷ ns) n ms begun (e, r) = (e, Rising-drop 0 hi ns n ms r)

-- A queued note is no init note, so that the stdin in front of it has begun.
pub Wired-begun :
    (cfg : Config) (hi : ℕ) (ns : List EngineNote) (n : OutNote) (rest : List OutNote)
    → Wired cfg hi (ns ++ map (λ x. stamp (to_note x)) (n ∷ rest))
    → ns ≢ []
Wired-begun cfg hi [] (OutNote.deliver d) rest (e, r) h = unfold stamp in absurd (cc e)
Wired-begun cfg hi [] (OutNote.emit_ack a) rest (e, r) h = unfold stamp in absurd (cc e)
Wired-begun cfg hi (x ∷ ns) n rest w e = cc e

pub append-ne-nil : (ns ms : List EngineNote) → ns ≢ [] → ns ++ ms ≢ []
append-ne-nil [] ms h e = h refl
append-ne-nil (x ∷ ns) ms h e = cc e

-- The id that no deliver note has reached.
abbrev pub limit : Dispatcher → ℕ → ℕ
limit (sending g id d) next = id
limit _ next = next

abbrev pub receiver : Dispatcher → Option ℕ
receiver (sending g id d) = some g
receiver _ = none

-- The pipes are as they should be, and those in use have their init note.
pub record Piped (cfg : Config) (w : Worker) : Type 0 where
  pub same : w.cfg ≡ cfg
  pub wired : (g : ℕ) → Wired cfg (limit w.disp w.next_id) (pipe (w.procs g))
  pub fed :
      (g : ℕ) → (process_of w.sup ≡ some g) ⊎ (receiver w.disp ≡ some g) → pipe (w.procs g) ≢ []

-- A step that adds nothing to a pipe.
pub record Flow (w w' : Worker) : Type 0 where
  pub cfg : w'.cfg ≡ w.cfg
  pub limits : limit w.disp w.next_id ≤ limit w'.disp w'.next_id
  pub pipes : (g : ℕ) → pipe (w'.procs g) ≡ pipe (w.procs g)
  pub handled : (process_of w'.sup ≡ process_of w.sup) ⊎ (process_of w'.sup ≡ none)
  pub received :
      (receiver w'.disp ≡ none)
      ⊎ ((receiver w'.disp ≡ receiver w.disp) ⊎ (receiver w'.disp ≡ process_of w.sup))

pub Flow-Piped : {cfg : Config} (w w' : Worker) → Flow w w' → Piped cfg w → Piped cfg w'
Flow-Piped {cfg} w w' f v = record {
  same = f.cfg ∙ v.same;
  wired = λ g.
      subst (Wired cfg (limit w'.disp w'.next_id)) (sym (f.pipes g))
        (Wired-mono cfg _ _ (pipe (w.procs g)) f.limits (v.wired g));
  fed = λ g h. λ e. v.fed g (from g h) (sym (f.pipes g) ∙ e);
}
  where
    from :
        (g : ℕ)
        → (process_of w'.sup ≡ some g) ⊎ (receiver w'.disp ≡ some g)
        → (process_of w.sup ≡ some g) ⊎ (receiver w.disp ≡ some g)
    from g (inl h) = elim f.handled [ inl e ↦ inl (sym e ∙ h) | inr e ↦ cc (e, h) ]
    from g (inr h) = elim f.received [
      | inl e ↦ cc (e, h)
      | inr (inl e) ↦ inr (sym e ∙ h)
      | inr (inr e) ↦ inl (sym e ∙ h)
    ]
