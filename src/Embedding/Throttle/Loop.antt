-- ===== src/Embedding/Throttle/Loop.antt =====
-- `EmbedThrottle.batch` on one event loop: who holds the loop's lock, and what it is doing there.
-- Tasks that wait for the lock change nothing, so only its holder is in the state. A step of the
-- clock is the passing of time, during which a sleep may end.
use session_flow.Base.{
  ℕ, ◌+◌, ◌*◌, ◌≤◌, ◌<◌, ◌≡◌, ◌∙◌, ◌⊎◌, inl, inr, arith, max, nat_eq, refl, ap, Bool, true, false,
  if◌then◌else◌,
}
use session_flow.Embedding.Throttle.{
  EmbedThrottle, cooldown, new_throttle, remaining, done, min_cooldown_ms,
}

-- A holder asked for the time left, at a time and with the stamp that stood then; it sleeps until a time, or
-- has been running its batch since one.
pub data Holder : Type 0 where
  free : Holder
  sleeping : (asked seen due : ℕ) → Holder
  running : (asked seen since : ℕ) → Holder

pub record Loop : Type 0 where
  pub throttle : EmbedThrottle
  pub clock : ℕ
  pub holder : Holder

abbrev pub start : ℕ → ℕ → Loop
start cooldown_ms clock = record {
  throttle = new_throttle cooldown_ms;
  clock = clock;
  holder = free;
}

-- `stamp` is `done` by anyone: a batch with `stamp=False` itself, or a batch of the other index. A cancelled
-- sleep gives the lock back.
pub data Step (l : Loop) : Loop → Type 0 where
  tick : (n : ℕ) → Step l (record l { clock = l.clock + n })
  acquire :
      l.holder ≡ free
      → Step l (record l {
        holder = sleeping l.clock l.throttle.last_done (l.clock + remaining l.throttle l.clock);
      })
  begin :
      (asked seen due : ℕ)
      → l.holder ≡ sleeping asked seen due
      → due ≤ l.clock
      → Step l (record l { holder = running asked seen l.clock })
  cancel :
      (asked seen due : ℕ)
      → l.holder ≡ sleeping asked seen due
      → Step l (record l { holder = free })
  stamp : Step l (record l { throttle = done l.throttle l.clock })
  finish :
      (with_stamp : Bool) (asked seen since : ℕ)
      → l.holder ≡ running asked seen since
      → Step l (record l {
        throttle = if with_stamp then done l.throttle l.clock else l.throttle;
        holder = free;
      })

pub data Reach (l : Loop) : Loop → Type 0 where
  here : Reach l l
  next : {m n : Loop} → Reach l m → Step m n → Reach l n

-- Where a batch may begin: a full cooldown after the stamp that it saw.
abbrev Rested : ℕ → ℕ → ℕ → Type 0
Rested wait seen time = 0 < seen → seen + wait ≤ time

-- The stamp is the one that was seen, or came later.
abbrev IsSeen : EmbedThrottle → ℕ → ℕ → ℕ → Type 0
IsSeen t asked seen now = ((t.last_done ≡ seen) ⊎ (asked ≤ t.last_done)) × (asked ≤ now)

abbrev HolderRested : EmbedThrottle → ℕ → Holder → Type 0
HolderRested t now free = Unit
HolderRested t now (sleeping asked seen due) =
    Rested (cooldown t) seen due × IsSeen t asked seen now
HolderRested t now (running asked seen since) =
    Rested (cooldown t) seen since × IsSeen t asked seen now

record IsPaced (ms : ℕ) (l : Loop) : Type 0 where
  kept : l.throttle.cooldown_ms ≡ max ms min_cooldown_ms
  rested : HolderRested l.throttle l.clock l.holder

remaining-Rested :
    (t : EmbedThrottle) (now : ℕ) → Rested (cooldown t) t.last_done (now + remaining t now)
unfolding remaining
remaining-Rested t now = ground arith

HolderRested-later :
    (t : EmbedThrottle) (now n : ℕ) (h : Holder) → HolderRested t now h → HolderRested t (now + n) h
HolderRested-later t now n free r = r
HolderRested-later t now n (sleeping asked seen due) r = (r.0, (r.1.0, omega (arith, r.1.1)))
HolderRested-later t now n (running asked seen since) r = (r.0, (r.1.0, omega (arith, r.1.1)))

HolderRested-done :
    (t : EmbedThrottle) (now : ℕ) (h : Holder)
    → HolderRested t now h
    → HolderRested (done t now) now h
unfolding done
HolderRested-done t now free r = r
HolderRested-done t now (sleeping asked seen due) r = (r.0, (inr r.1.1, r.1.1))
HolderRested-done t now (running asked seen since) r = (r.0, (inr r.1.1, r.1.1))

cooldown_ms-stamped :
    (with_stamp : Bool) (t : EmbedThrottle) (now : ℕ)
    → (if with_stamp then done t now else t).cooldown_ms ≡ t.cooldown_ms
unfolding done
cooldown_ms-stamped true t now = refl
cooldown_ms-stamped false t now = refl

Step-IsPaced : (ms : ℕ) {l m : Loop} → Step l m → IsPaced ms l → IsPaced ms m
unfolding done
Step-IsPaced ms {l} (tick n) p = record {
  kept = p.kept;
  rested = HolderRested-later l.throttle l.clock n l.holder p.rested;
}
Step-IsPaced ms {l} (acquire h) p = record {
  kept = p.kept;
  rested = (remaining-Rested l.throttle l.clock, (inl refl, omega arith));
}
Step-IsPaced ms {l} (begin asked seen due h late) p = record {
  kept = p.kept;
  rested =
      let r : HolderRested l.throttle l.clock (sleeping asked seen due) = rw h at p.rested in
      (λ pos. omega (arith, r.0 pos), r.1);
}
Step-IsPaced ms (cancel asked seen due h) p = record { kept = p.kept; rested = tt }
Step-IsPaced ms {l} stamp p = record {
  kept = p.kept;
  rested = HolderRested-done l.throttle l.clock l.holder p.rested;
}
Step-IsPaced ms {l} (finish with_stamp asked seen since h) p = record {
  kept = cooldown_ms-stamped with_stamp l.throttle l.clock ∙ p.kept;
  rested = tt;
}

Reach-IsPaced : (ms : ℕ) {l m : Loop} → IsPaced ms l → Reach l m → IsPaced ms m
Reach-IsPaced ms p here = p
Reach-IsPaced ms p (next r s) = Step-IsPaced ms s (Reach-IsPaced ms p r)

start-IsPaced : (ms clock : ℕ) → IsPaced ms (start ms clock)
unfolding new_throttle
start-IsPaced ms clock = record { kept = refl; rested = tt }

-- Whoever stamps the throttle and whenever, on one event loop a batch that runs has begun at least the
-- cooldown after the stamp that stood when it asked, if there was one; the cooldown is the configured one or
-- 200 ms, whichever is longer. And the last stamp is that one, or was set at that time or later.
pub Reach-paced :
    (ms clock asked seen since : ℕ) {l : Loop}
    → Reach (start ms clock) l
    → l.holder ≡ running asked seen since
    → (0 < seen → seen + max ms 200 * 1000 ≤ since)
      × ((l.throttle.last_done ≡ seen) ⊎ (asked ≤ l.throttle.last_done))
Reach-paced ms clock asked seen since {l} r h =
    let p = Reach-IsPaced ms (start-IsPaced ms clock) r in
    let q : HolderRested l.throttle l.clock (running asked seen since) = rw h at p.rested in
    (λ pos. omega (arith, q.0 pos, ap (λ t. t * 1000) p.kept), q.1.0)
