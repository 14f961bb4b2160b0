-- ===== src/Irq.antt =====
-- `rivet/src/irq.rs`: the table of interrupt handlers.
use rivet_rtos.Base.{
  ℕ, Bool, true, false, not, ◌&&◌, List, [], ◌∷◌, ◌==◌, ltb, if◌then◌else◌, Table, update,
}
use rivet_rtos.Config.{Config}
pub mod Handlers

-- `HANDLERS`, where 0 is no handler, and `UNTRACED`.
pub record IrqTable : Type 0 where
  pub handlers : Table ℕ
  pub untraced : Table Bool

pub data IrqResult : Type 0 where
  ok out_of_range : IrqResult

-- What a dispatch does, in order: an event of the trace, or the call of the handler at an address.
pub data Call : Type 0 where
  isr : ℕ → Bool → Call
  handler : ℕ → Call

module _ (cfg : Config) where
  unfoldable pub register : ℕ → ℕ → IrqTable → IrqResult × IrqTable
  register irq_num h t =
      if ltb irq_num cfg.max_irqs
      then (ok, record t { handlers = update t.handlers irq_num h })
      else (out_of_range, t)

  unfoldable pub mark_untraced : ℕ → IrqResult × IrqTable → IrqResult × IrqTable
  mark_untraced irq_num (ok, t) = (ok, record t { untraced = update t.untraced irq_num true })
  mark_untraced irq_num (out_of_range, t) = (out_of_range, t)

  unfoldable pub register_untraced : ℕ → ℕ → IrqTable → IrqResult × IrqTable
  register_untraced irq_num h t = mark_untraced irq_num (register irq_num h t)

  unfoldable pub unregister : ℕ → IrqTable → IrqTable
  unregister irq_num t =
      if ltb irq_num cfg.max_irqs
      then record {
        handlers = update t.handlers irq_num 0;
        untraced = update t.untraced irq_num false;
      }
      else t

  -- `traced` is whether the trace is compiled in.
  unfoldable pub dispatch : Bool → ℕ → IrqTable → List Call
  dispatch traced irq_num t =
      let h = t.handlers irq_num in
      let wrapped = traced && not (t.untraced irq_num) in
      if ltb irq_num cfg.max_irqs
      then (if h == 0
          then []
          else (if wrapped
              then isr irq_num true ∷ handler h ∷ isr irq_num false ∷ []
              else handler h ∷ []))
      else []

unfoldable pub reset_for_test : IrqTable → IrqTable
reset_for_test t = record t { handlers = λ _. 0 }
