-- ===== src/Examples/Config.antt =====
-- Epochs of ten blocks.
use strk20_indexer.Prelude.{◌≤◌, ◌≡◌, ◌↔◌, [], arith}
use strk20_indexer.Consumer.Reply.{done}
use strk20_indexer.Indexer.Config.{ChainConfig, epoch_of, epoch_range}
use strk20_indexer.Indexer.Config.Covers.{epoch_of-epoch_range}

abbrev tens : ChainConfig
tens = record {
  chain_id = "SN_MAIN";
  pool = 5;
  genesis_block = 12;
  epoch_size = 10;
  decoder_map = [];
}

epoch_of-epoch_range_example :
    (epoch_of tens 37 ≡ done 3) ↔ (((epoch_range tens 3).0 ≤ 37) × (37 ≤ (epoch_range tens 3).1))
epoch_of-epoch_range_example = epoch_of-epoch_range tens 37 (omega arith) 3 (omega arith)
