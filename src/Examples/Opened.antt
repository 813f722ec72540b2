-- ===== src/Examples/Opened.antt =====
-- The definitions that a run of a handler with demurrage unfolds.
use demurrage_token.Base.{bytes_beq, pair_beq, ℕ}
use demurrage_token.Storage.{may_load, save, remove}
use demurrage_token.Expiration.{is_expired}
use demurrage_token.Demurrage.{
  decay_by, decay_loop, decay_step, grow_by, grow_loop, grow_step, to_base_amount, distribution_of,
}
use demurrage_token.Balances.{debit_account, credit_account, checked_sub}
use demurrage_token.Period.{
  change_period, settle_period, send_tax, next_demurrage_amount, apply_demurrage,
  apply_demurrage_limited, decay_state, apply_default_redistribution, get_period_time_delta,
  demurrage_cycles, get_minutes_delta, get_distribution,
}
use demurrage_token.Allowances.{
  into_cosmos_msg, reduce_total_supply, deduct_allowance, deducted, raised, lower_allowance,
  execute_increase_allowance, execute_decrease_allowance, execute_burn_from, execute_send_from,
}
use demurrage_token.Contract.{
  execute, exceeds_cap, execute_transfer, execute_transfer_from, execute_send, execute_burn,
  execute_mint, execute_update_minter, execute_change_sink_address, execute_change_tax_level,
}

-- Unfolding this name unfolds the code below every message.
unfoldable pub all_payments : ℕ
unfolding execute execute_transfer execute_transfer_from execute_send execute_burn execute_mint
    execute_update_minter execute_change_sink_address execute_change_tax_level
    execute_increase_allowance execute_decrease_allowance execute_burn_from execute_send_from
    exceeds_cap deduct_allowance deducted raised lower_allowance is_expired change_period
    settle_period send_tax next_demurrage_amount apply_demurrage apply_demurrage_limited decay_state
    apply_default_redistribution get_period_time_delta demurrage_cycles get_minutes_delta
    get_distribution decay_by decay_loop decay_step grow_by grow_loop grow_step to_base_amount
    distribution_of debit_account credit_account checked_sub may_load save remove bytes_beq pair_beq
    into_cosmos_msg reduce_total_supply
all_payments = 0
