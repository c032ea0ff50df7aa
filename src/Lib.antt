-- ===== src/Lib.antt =====
-- The bidding model of an ads bidding optimizer: it learns the distribution of clearing prices from
-- impression logs, chooses for each impression the bid b with the greatest expected profit
-- (V - b)·P(price <= b), measures bids against recorded prices, and retrains on the outcomes of a
-- running simulation. A bid of the running system goes through all parts: features.py turns logs
-- into encoded rows and vocabularies, train.py fits a network on the batches of dataset.py,
-- evaluate.py and backtest.py price its predictions with the grid search of bid_optimizer.py, and
-- retrain.py encodes new outcomes with the same vocabularies, trains again and replaces the model
-- file that the bidder reads.
--
-- The files, with the code that each of them models:
-- Prelude: shared names, Boolean tests, lists measured by native numbers, integers.
-- Float, Arrays: the floating-point type and the array operations of numpy and torch, which are not
--   code of the repository: a type W with operations, and the records IsOrdered, IsRounded and
--   IsDocumented of what a property uses of them. Float/Exact and Arrays/Plain meet those laws with
--   whole numbers, on which the examples run. Values are finite and none is NaN.
-- Dict, Text: Python's dict, Counter and str, as far as the code calls them.
-- Optimizer: rtb-bid-model/src/bid_optimizer.py (grid_optimize_mdn, grid_optimize_bins,
--   perfect_profit, regret), mdn_cdf of rtb-bid-model/src/loss.py, best_bids of
--   rtb-bid-model/src/backtest.py and grid_optimize_from_probs of
--   rtb-bid-model/src/experiments/budget_eval.py, each for one row of a batch. Optimizer/Newton is
--   newton_optimize_mdn and newton_optimize_bins.
-- Backtest: the loop of main in rtb-bid-model/src/backtest.py, one strategy over the auctions.
-- Budget: simulate of rtb-bid-model/src/experiments/budget_eval.py and the loop of main in
--   rtb-bid-model/src/experiments/budget_naive.py; the local variables of the loops are Account.
--   Budget/Evaluation is both main programs, from the loaded predictions on.
-- Features: rtb-bid-model/src/features.py. Parse is parse_chunked, Encode is fit_encoder,
--   apply_encoder_series and the renamed vocabulary of the tags (with build_vocab_sizes of
--   rtb-bid-model/src/model.py), Tags is encode_user_tags_to_arr and the tag counts, Passes the
--   choice of rows in passes B and C of main, Pipeline these passes on the intermediate rows: what
--   is fitted, the artifacts and the written rows,
--   Engineered is basic_features_inplace for one row, the sums and scalers of pass B, and the
--   continuous columns of a row as dataset.py packs them.
-- Dataset: BidDataset.iter_batches, num_batches and the tag array of the constructor of
--   rtb-bid-model/src/dataset.py.
-- Train: rtb-bid-model/src/train.py: EMA, cosine_lr, and in main the end of an epoch and the loop
--   over the epochs. Train/Epochs is the training from its first epoch on: the steps with their
--   learning rates, the running loss and the epochs; the optimizer with its state is an argument.
--   Train/Networks is the networks that train.py builds and saves, and that evaluate.py,
--   export_onnx.py (with its feature configuration) and the retrainer build again.
-- Loss: mdn_nll, mdn_log_prob and discrete_bins_smoothed_nll of rtb-bid-model/src/loss.py.
-- Evaluate: regret_metrics_mdn_grid and regret_metrics_bins_grid of rtb-bid-model/src/evaluate.py;
--   Evaluate/Calibration is its PIT values, ks_statistic and coverage_table, Evaluate/Predictions
--   collect_predictions and the regrets of the Newton bids, Evaluate/Metrics the results of main.
--   Evaluate/Saved is the evaluation of saved predictions in rtb-bid-model/src/experiments:
--   eval_preds.py with its own calibration (Saved/Inline), and the functions of eval_ckpts_batch.py
--   that collect and measure them.
-- Lgbm: quantile_to_cdf_pdf, quantile_to_cdf_pdf_vec and evaluate_lgbm of
--   rtb-bid-model/src/experiments/evaluate_lgbm.py, and the main program of lgbm_eval.py beside it,
--   from the predicted quantiles on.
-- Edges: make_edges and assign_bins of rtb-bid-model/src/experiments/bins_v2.py; Edges/Remap is
--   remap_to_integer_probs of eval_bins_v2.py beside it, and Edges/Remap/Report the results of its
--   main.
-- Ensemble: rtb-bid-model/src/experiments/ensemble.py: the probabilities of a member over the bins,
--   their weighted average, and in Ensemble/Metrics the loop of evaluate_ensemble over its chunks;
--   Ensemble/Budgets is budget_ensemble.py beside it, which averages in the same way, over Budget.
-- Isotonic: rtb-bid-model/src/experiments/calibrate.py, around the fit of scikit-learn, which is an
--   argument.
-- Search: the searches for an ensemble's weights in rtb-bid-model/src/experiments: ens_search.py
--   (Search has its regrets, Search/Weights its loops), ens_search2.py (Search/Streaming), whose
--   cache directory is a dictionary from paths to arrays, and ens_search3.py (Search/Subset). They
--   share the loops of Search/Weights, which take the regret of a weight vector as an argument.
-- Sweep: train_one of rtb-bid-model/src/experiments/mdn_sweep.py and of bins_v2.py beside it, and
--   evaluate_loss of rtb-bid-model/src/train.py.
-- Temperature: the search of rtb-bid-model/src/experiments/calibrate_temp.py.
-- Retrain: retrainer/retrain.py. Calendar is weekday_monday0, Record is encode_record and the
--   labels of build_tensors, Window is read_window, Export is export_onnx, Rounds is write_status,
--   train_round and the loop of main. What a round calls (the log, torch, files, the clock) is given
--   by a record of events, failures included. Tune is the same rounds with their training: the
--   window and the tensors, the batches of each epoch and an optimizer step on each of them, which
--   is an argument.
-- Tests: the theorems at concrete inputs.
--
-- Fuel: the loops of Dataset.iter_batches and Evaluate.chunked, and those of
-- Ensemble/Metrics.slices, Sweep.epoch_batches and Retrain/Tune.tune_batches, run on fuel, one round
-- for each row and one more, or one for each row; for a batch size of at least 1 each round passes a
-- row, so the fuel is enough. A batch size of 0 makes the source loop forever or raise, and
-- is excluded. All other loops are structural recursion.
--
-- Not modelled: the networks and the optimizer (torch), parquet, bz2, YAML and pickle files, ONNX
-- sessions, plots and printing, and floating-point error, NaN and infinities; the
-- experiments that train with LightGBM or plot; random draws are
-- arguments. The C++ bidder, the Go engine and the dashboard are programs of their own.
pub mod Prelude
pub mod Float
pub mod Arrays
pub mod Optimizer
pub mod Backtest
pub mod Budget
pub mod Dict
pub mod Text
pub mod Features
pub mod Retrain
pub mod Dataset
pub mod Train
pub mod Evaluate
pub mod Edges
pub mod Ensemble
pub mod Lgbm
pub mod Isotonic
pub mod Search
pub mod Sweep
pub mod Loss
pub mod Temperature
pub mod Tests
