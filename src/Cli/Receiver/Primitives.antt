-- ===== src/Cli/Receiver/Primitives.antt =====
-- cli/transfer.ts: what the single steps of a task guarantee.
use p2p_transfer.Base.{
  ℕ, ◌≡◌, refl, Bool, true, false, not, Option, none, some, List, Text, if◌then◌else◌, lookup,
  nat_eq, arith,
}
use p2p_transfer.Shared.Messages.{FileManifest}
use p2p_transfer.Cli.Receiver.{
  FileState, Receiver, stopped, Meanwhile, meanwhile, Await, await, Task, throw_if_receive_stopped,
  file_of, change,
}
use p2p_transfer.Cli.Receiver.Triples.{After, Runs, IsRunning-IsThrown}
use p2p_transfer.Shared.Control.{ControlMessage}
use p2p_transfer.Cli.Receiver.{require, found_in}
use p2p_transfer.Cli.Receiver.Tasks.{Answers, send, send_control}
use p2p_transfer.Cli.Receiver.Triples.{Runs-bind, Runs-require}
use p2p_transfer.Cli.Receiver.Steps.{At, Stable, At-meanwhile}
use p2p_transfer.Cli.Receiver.{current, throw, Run, thrown, value}
use p2p_transfer.Cli.Receiver.Keeping.{Thrown, Running, meanwhile-Running}

-- A weaker result.
After-weaker :
    {A : Type 0} {Q R : A → Receiver → Type 0} {E F : Receiver → Type 0} (r : Run A)
    → ((a : A) (s : Receiver) → Q a s → R a s)
    → ((s : Receiver) → E s → F s)
    → After Q E r
    → After R F r
After-weaker (thrown t) q e h = e t h
After-weaker (value a t) q e h = q a t h

pub Runs-weaker :
    {A : Type 0} {P : Receiver → Type 0} {Q R : A → Receiver → Type 0} {E : Receiver → Type 0}
    {task : Task A}
    → ((a : A) (s : Receiver) → Q a s → R a s)
    → Runs P Q E task
    → Runs P R E task
Runs-weaker {task = task} q h = record {
  after = λ s p. After-weaker (task s) q (λ t e. e) (h.after s p);
}

pub Runs-from :
    {A : Type 0} {O P : Receiver → Type 0} {Q : A → Receiver → Type 0} {E : Receiver → Type 0}
    {task : Task A}
    → ((s : Receiver) → O s → P s)
    → Runs P Q E task
    → Runs O Q E task
Runs-from o h = record { after = λ s p. h.after s (o s p) }

pub Runs-throw :
    {A : Type 0} {P : Receiver → Type 0} {Q : A → Receiver → Type 0} {E : Receiver → Type 0}
    → ((s : Receiver) → P s → E s)
    → Runs P Q E throw
Runs-throw stops = record { after = stops }

pub found_in-After :
    {A : Type 0} (o : Option A) (Q : A → Receiver → Type 0) (E : Receiver → Type 0) (s : Receiver)
    → ((a : A) → o ≡ some a → Q a s)
    → E s
    → After Q E (found_in o s)
found_in-After none Q E s q e = e
found_in-After (some a) Q E s q e = q a refl

pub require-After :
    (b : Bool) (Q : Unit {0} → Receiver → Type 0) (E : Receiver → Type 0) (s : Receiver)
    → (b ≡ true → Q tt s)
    → E s
    → After Q E (require b s)
require-After true Q E s q e = q refl
require-After false Q E s q e = e

pub if-After :
    {A : Type 0} (b : Bool) (Q : A → Receiver → Type 0) (E : Receiver → Type 0) (r t : Run A)
    → (b ≡ true → After Q E r)
    → (b ≡ false → After Q E t)
    → After Q E (if b then r else t)
if-After true Q E r t first second = first refl
if-After false Q E r t first second = second refl

pub Runs-change :
    {P Q : Receiver → Type 0} {E : Receiver → Type 0} (f : Receiver → Receiver)
    → ((s : Receiver) → P s → Q (f s))
    → Runs P (λ u s. Q s) E (change f)
Runs-change f h = record { after = h }

pub Runs-current :
    {P : Receiver → Type 0} {E : Receiver → Type 0} → Runs P (λ r s. P s × (r ≡ s)) E current
Runs-current = record { after = λ s p. (p, refl) }

-- A predicate that what runs meanwhile keeps, and a message, in a task that runs.
pub record IsKept (is_format : ℕ → Bool) (sha256 : List ℕ → Text) (accepted : Option FileManifest)
    (P : Receiver → Type 0) : Type 0 where
  pub runs : (s : Receiver) → P s → Running is_format sha256 accepted s
  pub kept : (m : Meanwhile) (s : Receiver) → P s → P (meanwhile m s)
  pub resent : (s : Receiver) (sent : List ControlMessage) → P s → P (record s { sent = sent })

module _ (is_format : ℕ → Bool) (sha256 : List ℕ → Text) (accepted : Option FileManifest) where
  abbrev pub Ends : Receiver → Type 0
  Ends = Thrown is_format sha256 accepted

  abbrev pub Goes : Receiver → Type 0
  Goes = Running is_format sha256 accepted

  abbrev pub Kept : (Receiver → Type 0) → Type 0
  Kept = IsKept is_format sha256 accepted

  pub ends : {P : Receiver → Type 0} → Kept P → (s : Receiver) → P s → Ends s
  ends k s p = IsRunning-IsThrown is_format sha256 accepted s (k.runs s p)

  sent-Goes : (s : Receiver) (sent : List ControlMessage) → Goes s → Goes (record s { sent = sent })
  sent-Goes s sent r =
      let w = r.sound.weak in
      record {
        sound = record {
          weak = record {
            files = w.files;
            expected = w.expected;
            unset = w.unset;
            all_seen = w.all_seen;
            distinct = w.distinct;
            finished = λ completed. ground (arith, r.running, completed);
          };
          agreed = λ unfailed m set.
              let a = r.sound.agreed unfailed m set in
              record { matches = a.matches; expects = a.expects };
          watched = r.sound.watched;
        };
        running = r.running;
      }

  pub Goes-Kept : Kept Goes
  Goes-Kept = record {
    runs = λ s r. r;
    kept = λ m s r. meanwhile-Running is_format sha256 accepted m s r;
    resent = sent-Goes;
  }

  pub Runs-await :
      {A : Type 0} {P : Receiver → Type 0} (promise : Await A)
      → Kept P
      → Runs P (λ a s. P s) Ends (await promise)
  unfolding await
  Runs-await {A} {P} promise k = record {
    after = λ s p.
        let q = k.kept promise.during s p in
        found_in-After promise.answer (λ a t. P t) Ends (meanwhile promise.during s) (λ a e. q)
          (ends k _ q);
  }

  pub Runs-stop :
      {P : Receiver → Type 0}
      → Kept P
      → Runs P (λ u s. P s × (stopped s ≡ false)) Ends throw_if_receive_stopped
  unfolding throw_if_receive_stopped
  Runs-stop {P} k = record {
    after = λ s p.
        require-After (not (stopped s)) (λ u t. P t × (stopped t ≡ false)) Ends s
          (λ e. (p, ground (arith, e))) (ends k s p);
  }

  -- The file that a lookup gives.
  pub Runs-file_of :
      {P : Receiver → Type 0} (id : ℕ)
      → Kept P
      → Runs P (λ st s. P s × (lookup id s.files ≡ some st)) Ends (file_of id)
  unfolding file_of
  Runs-file_of {P} id k = record {
    after = λ s p.
        found_in-After (lookup id s.files) (λ st t. P t × (lookup id t.files ≡ some st)) Ends s
          (λ st e. (p, e)) (ends k s p);
  }

  -- `control.send`
  pub Runs-send :
      {P : Receiver → Type 0} (env : Answers) (message : ControlMessage)
      → Kept P
      → Runs P (λ u s. P s) Ends (send env message)
  unfolding send
  Runs-send {P} env message k =
      Runs-bind (Runs-require (env.sends message) (ends k))
        (λ u. record { after = λ s (p, e). k.resent s _ p })

  pub Runs-send_control :
      {P : Receiver → Type 0} (env : Answers) (sealed : Await (Unit {0})) (message : ControlMessage)
      → Kept P
      → Runs P (λ u s. P s) Ends (send_control env sealed message)
  unfolding send_control
  Runs-send_control env sealed message k =
      Runs-bind (Runs-await sealed k) (λ u.
        Runs-bind (Runs-weaker (λ a s (p, e). p) (Runs-stop k)) (λ v. Runs-send env message k))

  -- The file with an identifier, in a task that runs.
  pub record GoesAt (φ : FileState → Type 0) (id : ℕ) (s : Receiver) : Type 0 where
    pub goes : Goes s
    pub file : At φ id s

  pub GoesAt-Kept : {φ : FileState → Type 0} {id : ℕ} → Stable φ → Kept (GoesAt φ id)
  GoesAt-Kept {φ} {id} stable = record {
    runs = λ s p. p.goes;
    kept = λ m s p. record {
      goes = meanwhile-Running is_format sha256 accepted m s p.goes;
      file = At-meanwhile φ id m s stable p.file;
    };
    resent = λ s sent p. record {
      goes = sent-Goes s sent p.goes;
      file = record { state = p.file.state; stored = p.file.stored; holds = p.file.holds };
    };
  }
