-- ===== src/Thread/Forking/Gaining.antt =====
-- A kernel with room for one more thread gains it.
use cse4300_project.Prelude.{
  ℕ, ◌+◌, ◌≡◌, ap, ◌∙◌, [], ◌∷◌, ◌++◌, some, arith, length, length-append,
}
use cse4300_project.Platform.{Ptr, Platform, Laws}
use cse4300_project.Kernel.{Kernel}
use cse4300_project.Thread.Population.{occurrences-append, IsAlive, AreAlive-append, IsSound}
use cse4300_project.Thread.Forking.Furnishing.{IsPlentiful}
use cse4300_project.Thread.Forking.Reserving.{roomy}
use cse4300_project.Thread.Forking.Growth.{Spares, Spares-AreAlive, Gains}

module _ ⦃os : Platform⦄ (laws : Laws os) (n : ℕ) where
  open laws use {view, queued, HasRoom, HasSlots}

  -- The run queue takes a new thread, with room for `n + 1`.
  pub queue_takes :
      (k : Kernel) (newguy : Ptr) (h : IsSound laws n k) (many : IsPlentiful)
      → (let q = (os.scheduler_preallocate k.runqueue (n + 1)).value in
          ((os.make_runnable q newguy).code ≡ 0)
          × HasSlots (os.make_runnable q newguy).value (n + 1)
          × (queued (os.make_runnable q newguy).value ≡ queued k.runqueue ++ newguy ∷ []))
  queue_takes k newguy h many =
      let q = (os.scheduler_preallocate k.runqueue (n + 1)).value in
      let line : queued q ≡ queued k.runqueue =
        laws.scheduler_preallocate-queued k.runqueue (n + 1) in
      let slots : HasSlots q (n + 1) =
        laws.scheduler_preallocate-HasSlots k.runqueue (n + 1) (many.slots k.runqueue (n + 1)) in
      let (code, slots') =
        laws.make_runnable-HasSlots q newguy (n + 1) slots
          (omega (arith, h.fits, ap length line)) in
      (code, slots', laws.make_runnable-queued q newguy code ∙ ap (λ ps. ps ++ newguy ∷ []) line)

  -- The array and the run queue with room for `n + 1`, and other threads, in which all still live.
  pub Gains-reserved :
      (k k' : Kernel) (newguy : Ptr) (h : IsSound laws n k)
      → IsPlentiful
      → Spares k.threads k'.threads
      → IsAlive k'.threads newguy
      → k'.sleepers ≡ some (roomy h.sleepers (n + 1))
      → k'.runqueue
        ≡ (os.make_runnable (os.scheduler_preallocate k.runqueue (n + 1)).value newguy).value
      → k'.numthreads ≡ n + 1
      → k'.curspl ≡ k.curspl
      → k'.curthread ≡ k.curthread
      → Gains laws n k k' newguy
  Gains-reserved k k' newguy h many spares born array queue count level current =
      let (code, slots, line) = queue_takes k newguy h many in
      let ready : queued k'.runqueue ≡ queued k.runqueue ++ newguy ∷ [] = ap queued queue ∙ line in
      let same : view (roomy h.sleepers (n + 1)) ≡ view h.sleepers =
        laws.preallocate-view h.sleepers (n + 1) in
      record {
        healthy = record {
          sleepers = roomy h.sleepers (n + 1);
          array = array;
          current = rw current (spares k.curthread h.current);
          ready = rw ready (
              AreAlive-append k'.threads (queued k.runqueue) (newguy ∷ [])
                (Spares-AreAlive k.threads k'.threads (queued k.runqueue) spares h.ready)
                (born, tt));
          asleep = rw same (Spares-AreAlive k.threads k'.threads (view h.sleepers) spares h.asleep);
          room = laws.preallocate-HasRoom h.sleepers (n + 1) (many.rooms h.sleepers (n + 1));
          slots = rw queue slots;
          fits = omega (
            arith,
            h.fits,
            ap length ready,
            ap length same,
            length-append (queued k.runqueue) (newguy ∷ []),
          );
        };
        count = count;
        level = level;
        current = current;
        ready = ready;
        same = λ p.
            rw (array, h.array, current, ready, same)
              (omega (arith, occurrences-append p (queued k.runqueue) (newguy ∷ [])));
      }
