-- ===== src/Rewards/Table/Early.antt =====
-- The table of src/rewards_formulas.rs, its first half: the rows of the array in their order.
use pchain_runtime.Prelude.{ℕ, List, [], ◌∷◌}

unfoldable pub factors_0 : List ℕ
factors_0 =
    10000 ∷ 9996 ∷ 9991 ∷ 9987 ∷ 9982 ∷ 9978 ∷ 9973 ∷ 9969 ∷ 9964 ∷ 9960 ∷ 9956 ∷ 9951 ∷ 9947 ∷ 9942
    ∷ 9938 ∷ 9933 ∷ 9929 ∷ 9925 ∷ 9920 ∷ 9916 ∷ 9911 ∷ 9907 ∷ 9903 ∷ 9898 ∷ 9894 ∷ 9889 ∷ 9885
    ∷ 9881 ∷ 9876 ∷ 9872 ∷ 9867 ∷ 9863 ∷ 9859 ∷ 9854 ∷ 9850 ∷ 9845 ∷ 9841 ∷ 9837 ∷ 9832 ∷ 9828
    ∷ 9823 ∷ 9819 ∷ 9815 ∷ 9810 ∷ 9806 ∷ 9802 ∷ 9797 ∷ 9793 ∷ 9789 ∷ 9784 ∷ 9780 ∷ 9775 ∷ 9771
    ∷ 9767 ∷ 9762 ∷ 9758 ∷ 9754 ∷ 9749 ∷ 9745 ∷ 9741 ∷ 9736 ∷ 9732 ∷ 9728 ∷ 9723 ∷ 9719 ∷ 9715
    ∷ 9710 ∷ 9706 ∷ 9702 ∷ 9697 ∷ 9693 ∷ 9689 ∷ 9684 ∷ 9680 ∷ 9676 ∷ 9672 ∷ 9667 ∷ 9663 ∷ 9659
    ∷ 9654 ∷ 9650 ∷ 9646 ∷ 9641 ∷ 9637 ∷ 9633 ∷ 9629 ∷ 9624 ∷ 9620 ∷ 9616 ∷ 9611 ∷ 9607 ∷ 9603
    ∷ 9599 ∷ 9594 ∷ 9590 ∷ 9586 ∷ 9582 ∷ 9577 ∷ 9573 ∷ 9569 ∷ 9565 ∷ 9560 ∷ 9556 ∷ 9552 ∷ 9547
    ∷ 9543 ∷ 9539 ∷ 9535 ∷ 9531 ∷ 9526 ∷ 9522 ∷ 9518 ∷ 9514 ∷ 9509 ∷ 9505 ∷ 9501 ∷ 9497 ∷ 9492
    ∷ 9488 ∷ 9484 ∷ 9480 ∷ 9475 ∷ 9471 ∷ 9467 ∷ 9463 ∷ 9459 ∷ 9454 ∷ 9450 ∷ 9446 ∷ 9442 ∷ 9438
    ∷ 9433 ∷ 9429 ∷ 9425 ∷ 9421 ∷ 9417 ∷ 9412 ∷ 9408 ∷ 9404 ∷ 9400 ∷ 9396 ∷ 9391 ∷ 9387 ∷ 9383
    ∷ 9379 ∷ 9375 ∷ 9371 ∷ 9366 ∷ 9362 ∷ 9358 ∷ 9354 ∷ 9350 ∷ 9346 ∷ 9341 ∷ 9337 ∷ 9333 ∷ 9329
    ∷ 9325 ∷ 9321 ∷ 9317 ∷ 9312 ∷ 9308 ∷ 9304 ∷ 9300 ∷ 9296 ∷ 9292 ∷ 9288 ∷ 9283 ∷ 9279 ∷ 9275
    ∷ 9271 ∷ 9267 ∷ 9263 ∷ 9259 ∷ 9255 ∷ 9250 ∷ 9246 ∷ 9242 ∷ 9238 ∷ 9234 ∷ 9230 ∷ 9226 ∷ 9222
    ∷ 9217 ∷ 9213 ∷ 9209 ∷ 9205 ∷ 9201 ∷ 9197 ∷ 9193 ∷ 9189 ∷ 9185 ∷ 9181 ∷ 9177 ∷ 9172 ∷ 9168
    ∷ 9164 ∷ 9160 ∷ 9156 ∷ 9152 ∷ 9148 ∷ 9144 ∷ 9140 ∷ 9136 ∷ 9132 ∷ 9128 ∷ 9124 ∷ 9120 ∷ 9115
    ∷ 9111 ∷ 9107 ∷ 9103 ∷ 9099 ∷ 9095 ∷ 9091 ∷ 9087 ∷ 9083 ∷ 9079 ∷ 9075 ∷ 9071 ∷ 9067 ∷ 9063
    ∷ 9059 ∷ 9055 ∷ 9051 ∷ 9047 ∷ 9043 ∷ 9039 ∷ 9035 ∷ 9031 ∷ 9027 ∷ 9023 ∷ 9019 ∷ 9015 ∷ 9011
    ∷ 9007 ∷ 9003 ∷ 8999 ∷ 8995 ∷ 8991 ∷ 8986 ∷ 8982 ∷ 8978 ∷ 8975 ∷ 8971 ∷ 8967 ∷ 8963 ∷ 8959
    ∷ 8955 ∷ 8951 ∷ 8947 ∷ 8943 ∷ 8939 ∷ 8935 ∷ 8931 ∷ 8927 ∷ 8923 ∷ 8919 ∷ 8915 ∷ 8911 ∷ 8907
    ∷ 8903 ∷ 8899 ∷ 8895 ∷ 8891 ∷ 8887 ∷ 8883 ∷ 8879 ∷ 8875 ∷ 8871 ∷ 8867 ∷ 8863 ∷ 8859 ∷ 8855
    ∷ 8851 ∷ 8848 ∷ 8844 ∷ 8840 ∷ 8836 ∷ 8832 ∷ 8828 ∷ 8824 ∷ 8820 ∷ 8816 ∷ 8812 ∷ 8808 ∷ 8804
    ∷ 8800 ∷ 8796 ∷ 8793 ∷ 8789 ∷ 8785 ∷ 8781 ∷ 8777 ∷ 8773 ∷ 8769 ∷ 8765 ∷ 8761 ∷ 8757 ∷ 8753
    ∷ 8750 ∷ 8746 ∷ 8742 ∷ 8738 ∷ 8734 ∷ 8730 ∷ 8726 ∷ 8722 ∷ 8718 ∷ 8715 ∷ 8711 ∷ 8707 ∷ 8703
    ∷ 8699 ∷ 8695 ∷ 8691 ∷ 8687 ∷ 8684 ∷ 8680 ∷ 8676 ∷ 8672 ∷ 8668 ∷ 8664 ∷ 8660 ∷ 8657 ∷ 8653
    ∷ 8649 ∷ 8645 ∷ 8641 ∷ 8637 ∷ 8634 ∷ 8630 ∷ 8626 ∷ 8622 ∷ 8618 ∷ 8614 ∷ 8610 ∷ 8607 ∷ 8603
    ∷ 8599 ∷ 8595 ∷ 8591 ∷ 8587 ∷ 8584 ∷ 8580 ∷ 8576 ∷ 8572 ∷ 8568 ∷ 8565 ∷ 8561 ∷ 8557 ∷ 8553
    ∷ 8549 ∷ 8546 ∷ 8542 ∷ 8538 ∷ 8534 ∷ 8530 ∷ 8527 ∷ 8523 ∷ 8519 ∷ 8515 ∷ 8511 ∷ 8508 ∷ 8504
    ∷ 8500 ∷ 8496 ∷ []

unfoldable pub factors_1 : List ℕ
factors_1 =
    8492 ∷ 8489 ∷ 8485 ∷ 8481 ∷ 8477 ∷ 8474 ∷ 8470 ∷ 8466 ∷ 8462 ∷ 8458 ∷ 8455 ∷ 8451 ∷ 8447 ∷ 8443
    ∷ 8440 ∷ 8436 ∷ 8432 ∷ 8428 ∷ 8425 ∷ 8421 ∷ 8417 ∷ 8413 ∷ 8410 ∷ 8406 ∷ 8402 ∷ 8398 ∷ 8395
    ∷ 8391 ∷ 8387 ∷ 8383 ∷ 8380 ∷ 8376 ∷ 8372 ∷ 8369 ∷ 8365 ∷ 8361 ∷ 8357 ∷ 8354 ∷ 8350 ∷ 8346
    ∷ 8343 ∷ 8339 ∷ 8335 ∷ 8331 ∷ 8328 ∷ 8324 ∷ 8320 ∷ 8317 ∷ 8313 ∷ 8309 ∷ 8305 ∷ 8302 ∷ 8298
    ∷ 8294 ∷ 8291 ∷ 8287 ∷ 8283 ∷ 8280 ∷ 8276 ∷ 8272 ∷ 8269 ∷ 8265 ∷ 8261 ∷ 8258 ∷ 8254 ∷ 8250
    ∷ 8246 ∷ 8243 ∷ 8239 ∷ 8235 ∷ 8232 ∷ 8228 ∷ 8224 ∷ 8221 ∷ 8217 ∷ 8214 ∷ 8210 ∷ 8206 ∷ 8203
    ∷ 8199 ∷ 8195 ∷ 8192 ∷ 8188 ∷ 8184 ∷ 8181 ∷ 8177 ∷ 8173 ∷ 8170 ∷ 8166 ∷ 8162 ∷ 8159 ∷ 8155
    ∷ 8152 ∷ 8148 ∷ 8144 ∷ 8141 ∷ 8137 ∷ 8133 ∷ 8130 ∷ 8126 ∷ 8123 ∷ 8119 ∷ 8115 ∷ 8112 ∷ 8108
    ∷ 8105 ∷ 8101 ∷ 8097 ∷ 8094 ∷ 8090 ∷ 8087 ∷ 8083 ∷ 8079 ∷ 8076 ∷ 8072 ∷ 8069 ∷ 8065 ∷ 8061
    ∷ 8058 ∷ 8054 ∷ 8051 ∷ 8047 ∷ 8043 ∷ 8040 ∷ 8036 ∷ 8033 ∷ 8029 ∷ 8026 ∷ 8022 ∷ 8018 ∷ 8015
    ∷ 8011 ∷ 8008 ∷ 8004 ∷ 8001 ∷ 7997 ∷ 7993 ∷ 7990 ∷ 7986 ∷ 7983 ∷ 7979 ∷ 7976 ∷ 7972 ∷ 7969
    ∷ 7965 ∷ 7961 ∷ 7958 ∷ 7954 ∷ 7951 ∷ 7947 ∷ 7944 ∷ 7940 ∷ 7937 ∷ 7933 ∷ 7930 ∷ 7926 ∷ 7923
    ∷ 7919 ∷ 7916 ∷ 7912 ∷ 7908 ∷ 7905 ∷ 7901 ∷ 7898 ∷ 7894 ∷ 7891 ∷ 7887 ∷ 7884 ∷ 7880 ∷ 7877
    ∷ 7873 ∷ 7870 ∷ 7866 ∷ 7863 ∷ 7859 ∷ 7856 ∷ 7852 ∷ 7849 ∷ 7845 ∷ 7842 ∷ 7838 ∷ 7835 ∷ 7831
    ∷ 7828 ∷ 7824 ∷ 7821 ∷ 7817 ∷ 7814 ∷ 7810 ∷ 7807 ∷ 7804 ∷ 7800 ∷ 7797 ∷ 7793 ∷ 7790 ∷ 7786
    ∷ 7783 ∷ 7779 ∷ 7776 ∷ 7772 ∷ 7769 ∷ 7765 ∷ 7762 ∷ 7758 ∷ 7755 ∷ 7752 ∷ 7748 ∷ 7745 ∷ 7741
    ∷ 7738 ∷ 7734 ∷ 7731 ∷ 7727 ∷ 7724 ∷ 7721 ∷ 7717 ∷ 7714 ∷ 7710 ∷ 7707 ∷ 7703 ∷ 7700 ∷ 7697
    ∷ 7693 ∷ 7690 ∷ 7686 ∷ 7683 ∷ 7679 ∷ 7676 ∷ 7673 ∷ 7669 ∷ 7666 ∷ 7662 ∷ 7659 ∷ 7656 ∷ 7652
    ∷ 7649 ∷ 7645 ∷ 7642 ∷ 7639 ∷ 7635 ∷ 7632 ∷ 7628 ∷ 7625 ∷ 7622 ∷ 7618 ∷ 7615 ∷ 7611 ∷ 7608
    ∷ 7605 ∷ 7601 ∷ 7598 ∷ 7594 ∷ 7591 ∷ 7588 ∷ 7584 ∷ 7581 ∷ 7578 ∷ 7574 ∷ 7571 ∷ 7567 ∷ 7564
    ∷ 7561 ∷ 7557 ∷ 7554 ∷ 7551 ∷ 7547 ∷ 7544 ∷ 7541 ∷ 7537 ∷ 7534 ∷ 7530 ∷ 7527 ∷ 7524 ∷ 7520
    ∷ 7517 ∷ 7514 ∷ 7510 ∷ 7507 ∷ 7504 ∷ 7500 ∷ 7497 ∷ 7494 ∷ 7490 ∷ 7487 ∷ 7484 ∷ 7480 ∷ 7477
    ∷ 7474 ∷ 7470 ∷ 7467 ∷ 7464 ∷ 7460 ∷ 7457 ∷ 7454 ∷ 7450 ∷ 7447 ∷ 7444 ∷ 7440 ∷ 7437 ∷ 7434
    ∷ 7431 ∷ 7427 ∷ 7424 ∷ 7421 ∷ 7417 ∷ 7414 ∷ 7411 ∷ 7407 ∷ 7404 ∷ 7401 ∷ 7398 ∷ 7394 ∷ 7391
    ∷ 7388 ∷ 7384 ∷ 7381 ∷ 7378 ∷ 7375 ∷ 7371 ∷ 7368 ∷ 7365 ∷ 7361 ∷ 7358 ∷ 7355 ∷ 7352 ∷ 7348
    ∷ 7345 ∷ 7342 ∷ 7338 ∷ 7335 ∷ 7332 ∷ 7329 ∷ 7325 ∷ 7322 ∷ 7319 ∷ 7316 ∷ 7312 ∷ 7309 ∷ 7306
    ∷ 7303 ∷ 7299 ∷ 7296 ∷ 7293 ∷ 7290 ∷ 7286 ∷ 7283 ∷ 7280 ∷ 7277 ∷ 7273 ∷ 7270 ∷ 7267 ∷ 7264
    ∷ 7260 ∷ 7257 ∷ 7254 ∷ 7251 ∷ 7248 ∷ 7244 ∷ 7241 ∷ 7238 ∷ 7235 ∷ 7231 ∷ 7228 ∷ 7225 ∷ 7222
    ∷ 7219 ∷ 7215 ∷ 7212 ∷ []

unfoldable pub factors_2 : List ℕ
factors_2 =
    7209 ∷ 7206 ∷ 7203 ∷ 7199 ∷ 7196 ∷ 7193 ∷ 7190 ∷ 7186 ∷ 7183 ∷ 7180 ∷ 7177 ∷ 7174 ∷ 7171 ∷ 7167
    ∷ 7164 ∷ 7161 ∷ 7158 ∷ 7155 ∷ 7151 ∷ 7148 ∷ 7145 ∷ 7142 ∷ 7139 ∷ 7135 ∷ 7132 ∷ 7129 ∷ 7126
    ∷ 7123 ∷ 7120 ∷ 7116 ∷ 7113 ∷ 7110 ∷ 7107 ∷ 7104 ∷ 7101 ∷ 7097 ∷ 7094 ∷ 7091 ∷ 7088 ∷ 7085
    ∷ 7082 ∷ 7079 ∷ 7075 ∷ 7072 ∷ 7069 ∷ 7066 ∷ 7063 ∷ 7060 ∷ 7056 ∷ 7053 ∷ 7050 ∷ 7047 ∷ 7044
    ∷ 7041 ∷ 7038 ∷ 7035 ∷ 7031 ∷ 7028 ∷ 7025 ∷ 7022 ∷ 7019 ∷ 7016 ∷ 7013 ∷ 7010 ∷ 7006 ∷ 7003
    ∷ 7000 ∷ 6997 ∷ 6994 ∷ 6991 ∷ 6988 ∷ 6985 ∷ 6981 ∷ 6978 ∷ 6975 ∷ 6972 ∷ 6969 ∷ 6966 ∷ 6963
    ∷ 6960 ∷ 6957 ∷ 6954 ∷ 6950 ∷ 6947 ∷ 6944 ∷ 6941 ∷ 6938 ∷ 6935 ∷ 6932 ∷ 6929 ∷ 6926 ∷ 6923
    ∷ 6920 ∷ 6917 ∷ 6913 ∷ 6910 ∷ 6907 ∷ 6904 ∷ 6901 ∷ 6898 ∷ 6895 ∷ 6892 ∷ 6889 ∷ 6886 ∷ 6883
    ∷ 6880 ∷ 6877 ∷ 6874 ∷ 6870 ∷ 6867 ∷ 6864 ∷ 6861 ∷ 6858 ∷ 6855 ∷ 6852 ∷ 6849 ∷ 6846 ∷ 6843
    ∷ 6840 ∷ 6837 ∷ 6834 ∷ 6831 ∷ 6828 ∷ 6825 ∷ 6822 ∷ 6819 ∷ 6816 ∷ 6813 ∷ 6810 ∷ 6807 ∷ 6804
    ∷ 6800 ∷ 6797 ∷ 6794 ∷ 6791 ∷ 6788 ∷ 6785 ∷ 6782 ∷ 6779 ∷ 6776 ∷ 6773 ∷ 6770 ∷ 6767 ∷ 6764
    ∷ 6761 ∷ 6758 ∷ 6755 ∷ 6752 ∷ 6749 ∷ 6746 ∷ 6743 ∷ 6740 ∷ 6737 ∷ 6734 ∷ 6731 ∷ 6728 ∷ 6725
    ∷ 6722 ∷ 6719 ∷ 6716 ∷ 6713 ∷ 6710 ∷ 6707 ∷ 6704 ∷ 6701 ∷ 6698 ∷ 6695 ∷ 6692 ∷ 6689 ∷ 6686
    ∷ 6683 ∷ 6680 ∷ 6677 ∷ 6674 ∷ 6672 ∷ 6669 ∷ 6666 ∷ 6663 ∷ 6660 ∷ 6657 ∷ 6654 ∷ 6651 ∷ 6648
    ∷ 6645 ∷ 6642 ∷ 6639 ∷ 6636 ∷ 6633 ∷ 6630 ∷ 6627 ∷ 6624 ∷ 6621 ∷ 6618 ∷ 6615 ∷ 6612 ∷ 6609
    ∷ 6606 ∷ 6604 ∷ 6601 ∷ 6598 ∷ 6595 ∷ 6592 ∷ 6589 ∷ 6586 ∷ 6583 ∷ 6580 ∷ 6577 ∷ 6574 ∷ 6571
    ∷ 6568 ∷ 6565 ∷ 6563 ∷ 6560 ∷ 6557 ∷ 6554 ∷ 6551 ∷ 6548 ∷ 6545 ∷ 6542 ∷ 6539 ∷ 6536 ∷ 6533
    ∷ 6530 ∷ 6528 ∷ 6525 ∷ 6522 ∷ 6519 ∷ 6516 ∷ 6513 ∷ 6510 ∷ 6507 ∷ 6504 ∷ 6501 ∷ 6499 ∷ 6496
    ∷ 6493 ∷ 6490 ∷ 6487 ∷ 6484 ∷ 6481 ∷ 6478 ∷ 6475 ∷ 6473 ∷ 6470 ∷ 6467 ∷ 6464 ∷ 6461 ∷ 6458
    ∷ 6455 ∷ 6452 ∷ 6450 ∷ 6447 ∷ 6444 ∷ 6441 ∷ 6438 ∷ 6435 ∷ 6432 ∷ 6429 ∷ 6427 ∷ 6424 ∷ 6421
    ∷ 6418 ∷ 6415 ∷ 6412 ∷ 6409 ∷ 6407 ∷ 6404 ∷ 6401 ∷ 6398 ∷ 6395 ∷ 6392 ∷ 6390 ∷ 6387 ∷ 6384
    ∷ 6381 ∷ 6378 ∷ 6375 ∷ 6372 ∷ 6370 ∷ 6367 ∷ 6364 ∷ 6361 ∷ 6358 ∷ 6355 ∷ 6353 ∷ 6350 ∷ 6347
    ∷ 6344 ∷ 6341 ∷ 6338 ∷ 6336 ∷ 6333 ∷ 6330 ∷ 6327 ∷ 6324 ∷ 6322 ∷ 6319 ∷ 6316 ∷ 6313 ∷ 6310
    ∷ 6308 ∷ 6305 ∷ 6302 ∷ 6299 ∷ 6296 ∷ 6294 ∷ 6291 ∷ 6288 ∷ 6285 ∷ 6282 ∷ 6280 ∷ 6277 ∷ 6274
    ∷ 6271 ∷ 6268 ∷ 6266 ∷ 6263 ∷ 6260 ∷ 6257 ∷ 6254 ∷ 6252 ∷ 6249 ∷ 6246 ∷ 6243 ∷ 6240 ∷ 6238
    ∷ 6235 ∷ 6232 ∷ 6229 ∷ 6227 ∷ 6224 ∷ 6221 ∷ 6218 ∷ 6216 ∷ 6213 ∷ 6210 ∷ 6207 ∷ 6204 ∷ 6202
    ∷ 6199 ∷ 6196 ∷ 6193 ∷ 6191 ∷ 6188 ∷ 6185 ∷ 6182 ∷ 6180 ∷ 6177 ∷ 6174 ∷ 6171 ∷ 6169 ∷ 6166
    ∷ 6163 ∷ 6160 ∷ 6158 ∷ 6155 ∷ 6152 ∷ 6149 ∷ 6147 ∷ 6144 ∷ 6141 ∷ 6139 ∷ 6136 ∷ 6133 ∷ 6130
    ∷ 6128 ∷ 6125 ∷ 6122 ∷ []

unfoldable pub factors_3 : List ℕ
factors_3 =
    6119 ∷ 6117 ∷ 6114 ∷ 6111 ∷ 6109 ∷ 6106 ∷ 6103 ∷ 6100 ∷ 6098 ∷ 6095 ∷ 6092 ∷ 6090 ∷ 6087 ∷ 6084
    ∷ 6081 ∷ 6079 ∷ 6076 ∷ 6073 ∷ 6071 ∷ 6068 ∷ 6065 ∷ 6062 ∷ 6060 ∷ 6057 ∷ 6054 ∷ 6052 ∷ 6049
    ∷ 6046 ∷ 6044 ∷ 6041 ∷ 6038 ∷ 6036 ∷ 6033 ∷ 6030 ∷ 6027 ∷ 6025 ∷ 6022 ∷ 6019 ∷ 6017 ∷ 6014
    ∷ 6011 ∷ 6009 ∷ 6006 ∷ 6003 ∷ 6001 ∷ 5998 ∷ 5995 ∷ 5993 ∷ 5990 ∷ 5987 ∷ 5985 ∷ 5982 ∷ 5979
    ∷ 5977 ∷ 5974 ∷ 5971 ∷ 5969 ∷ 5966 ∷ 5963 ∷ 5961 ∷ 5958 ∷ 5955 ∷ 5953 ∷ 5950 ∷ 5947 ∷ 5945
    ∷ 5942 ∷ 5940 ∷ 5937 ∷ 5934 ∷ 5932 ∷ 5929 ∷ 5926 ∷ 5924 ∷ 5921 ∷ 5918 ∷ 5916 ∷ 5913 ∷ 5911
    ∷ 5908 ∷ 5905 ∷ 5903 ∷ 5900 ∷ 5897 ∷ 5895 ∷ 5892 ∷ 5890 ∷ 5887 ∷ 5884 ∷ 5882 ∷ 5879 ∷ 5876
    ∷ 5874 ∷ 5871 ∷ 5869 ∷ 5866 ∷ 5863 ∷ 5861 ∷ 5858 ∷ 5856 ∷ 5853 ∷ 5850 ∷ 5848 ∷ 5845 ∷ 5843
    ∷ 5840 ∷ 5837 ∷ 5835 ∷ 5832 ∷ 5830 ∷ 5827 ∷ 5824 ∷ 5822 ∷ 5819 ∷ 5817 ∷ 5814 ∷ 5811 ∷ 5809
    ∷ 5806 ∷ 5804 ∷ 5801 ∷ 5798 ∷ 5796 ∷ 5793 ∷ 5791 ∷ 5788 ∷ 5786 ∷ 5783 ∷ 5780 ∷ 5778 ∷ 5775
    ∷ 5773 ∷ 5770 ∷ 5768 ∷ 5765 ∷ 5762 ∷ 5760 ∷ 5757 ∷ 5755 ∷ 5752 ∷ 5750 ∷ 5747 ∷ 5744 ∷ 5742
    ∷ 5739 ∷ 5737 ∷ 5734 ∷ 5732 ∷ 5729 ∷ 5727 ∷ 5724 ∷ 5722 ∷ 5719 ∷ 5716 ∷ 5714 ∷ 5711 ∷ 5709
    ∷ 5706 ∷ 5704 ∷ 5701 ∷ 5699 ∷ 5696 ∷ 5694 ∷ 5691 ∷ 5688 ∷ 5686 ∷ 5683 ∷ 5681 ∷ 5678 ∷ 5676
    ∷ 5673 ∷ 5671 ∷ 5668 ∷ 5666 ∷ 5663 ∷ 5661 ∷ 5658 ∷ 5656 ∷ 5653 ∷ 5651 ∷ 5648 ∷ 5646 ∷ 5643
    ∷ 5641 ∷ 5638 ∷ 5636 ∷ 5633 ∷ 5631 ∷ 5628 ∷ 5626 ∷ 5623 ∷ 5621 ∷ 5618 ∷ 5616 ∷ 5613 ∷ 5611
    ∷ 5608 ∷ 5606 ∷ 5603 ∷ 5601 ∷ 5598 ∷ 5596 ∷ 5593 ∷ 5591 ∷ 5588 ∷ 5586 ∷ 5583 ∷ 5581 ∷ 5578
    ∷ 5576 ∷ 5573 ∷ 5571 ∷ 5568 ∷ 5566 ∷ 5563 ∷ 5561 ∷ 5558 ∷ 5556 ∷ 5553 ∷ 5551 ∷ 5548 ∷ 5546
    ∷ 5543 ∷ 5541 ∷ 5539 ∷ 5536 ∷ 5534 ∷ 5531 ∷ 5529 ∷ 5526 ∷ 5524 ∷ 5521 ∷ 5519 ∷ 5516 ∷ 5514
    ∷ 5511 ∷ 5509 ∷ 5507 ∷ 5504 ∷ 5502 ∷ 5499 ∷ 5497 ∷ 5494 ∷ 5492 ∷ 5489 ∷ 5487 ∷ 5485 ∷ 5482
    ∷ 5480 ∷ 5477 ∷ 5475 ∷ 5472 ∷ 5470 ∷ 5467 ∷ 5465 ∷ 5463 ∷ 5460 ∷ 5458 ∷ 5455 ∷ 5453 ∷ 5450
    ∷ 5448 ∷ 5446 ∷ 5443 ∷ 5441 ∷ 5438 ∷ 5436 ∷ 5433 ∷ 5431 ∷ 5429 ∷ 5426 ∷ 5424 ∷ 5421 ∷ 5419
    ∷ 5417 ∷ 5414 ∷ 5412 ∷ 5409 ∷ 5407 ∷ 5405 ∷ 5402 ∷ 5400 ∷ 5397 ∷ 5395 ∷ 5393 ∷ 5390 ∷ 5388
    ∷ 5385 ∷ 5383 ∷ 5381 ∷ 5378 ∷ 5376 ∷ 5373 ∷ 5371 ∷ 5369 ∷ 5366 ∷ 5364 ∷ 5361 ∷ 5359 ∷ 5357
    ∷ 5354 ∷ 5352 ∷ 5349 ∷ 5347 ∷ 5345 ∷ 5342 ∷ 5340 ∷ 5338 ∷ 5335 ∷ 5333 ∷ 5330 ∷ 5328 ∷ 5326
    ∷ 5323 ∷ 5321 ∷ 5319 ∷ 5316 ∷ 5314 ∷ 5312 ∷ 5309 ∷ 5307 ∷ 5304 ∷ 5302 ∷ 5300 ∷ 5297 ∷ 5295
    ∷ 5293 ∷ 5290 ∷ 5288 ∷ 5286 ∷ 5283 ∷ 5281 ∷ 5278 ∷ 5276 ∷ 5274 ∷ 5271 ∷ 5269 ∷ 5267 ∷ 5264
    ∷ 5262 ∷ 5260 ∷ 5257 ∷ 5255 ∷ 5253 ∷ 5250 ∷ 5248 ∷ 5246 ∷ 5243 ∷ 5241 ∷ 5239 ∷ 5236 ∷ 5234
    ∷ 5232 ∷ 5229 ∷ 5227 ∷ 5225 ∷ 5222 ∷ 5220 ∷ 5218 ∷ 5215 ∷ 5213 ∷ 5211 ∷ 5208 ∷ 5206 ∷ 5204
    ∷ 5202 ∷ 5199 ∷ 5197 ∷ []

unfoldable pub factors_4 : List ℕ
factors_4 =
    5195 ∷ 5192 ∷ 5190 ∷ 5188 ∷ 5185 ∷ 5183 ∷ 5181 ∷ 5178 ∷ 5176 ∷ 5174 ∷ 5171 ∷ 5169 ∷ 5167 ∷ 5165
    ∷ 5162 ∷ 5160 ∷ 5158 ∷ 5155 ∷ 5153 ∷ 5151 ∷ 5149 ∷ 5146 ∷ 5144 ∷ 5142 ∷ 5139 ∷ 5137 ∷ 5135
    ∷ 5132 ∷ 5130 ∷ 5128 ∷ 5126 ∷ 5123 ∷ 5121 ∷ 5119 ∷ 5117 ∷ 5114 ∷ 5112 ∷ 5110 ∷ 5107 ∷ 5105
    ∷ 5103 ∷ 5101 ∷ 5098 ∷ 5096 ∷ 5094 ∷ 5092 ∷ 5089 ∷ 5087 ∷ 5085 ∷ 5082 ∷ 5080 ∷ 5078 ∷ 5076
    ∷ 5073 ∷ 5071 ∷ 5069 ∷ 5067 ∷ 5064 ∷ 5062 ∷ 5060 ∷ 5058 ∷ 5055 ∷ 5053 ∷ 5051 ∷ 5049 ∷ 5046
    ∷ 5044 ∷ 5042 ∷ 5040 ∷ 5037 ∷ 5035 ∷ 5033 ∷ 5031 ∷ 5028 ∷ 5026 ∷ 5024 ∷ 5022 ∷ 5019 ∷ 5017
    ∷ 5015 ∷ 5013 ∷ 5011 ∷ 5008 ∷ 5006 ∷ 5004 ∷ 5002 ∷ 4999 ∷ 4997 ∷ 4995 ∷ 4993 ∷ 4991 ∷ 4988
    ∷ 4986 ∷ 4984 ∷ 4982 ∷ 4979 ∷ 4977 ∷ 4975 ∷ 4973 ∷ 4971 ∷ 4968 ∷ 4966 ∷ 4964 ∷ 4962 ∷ 4959
    ∷ 4957 ∷ 4955 ∷ 4953 ∷ 4951 ∷ 4948 ∷ 4946 ∷ 4944 ∷ 4942 ∷ 4940 ∷ 4937 ∷ 4935 ∷ 4933 ∷ 4931
    ∷ 4929 ∷ 4926 ∷ 4924 ∷ 4922 ∷ 4920 ∷ 4918 ∷ 4916 ∷ 4913 ∷ 4911 ∷ 4909 ∷ 4907 ∷ 4905 ∷ 4902
    ∷ 4900 ∷ 4898 ∷ 4896 ∷ 4894 ∷ 4892 ∷ 4889 ∷ 4887 ∷ 4885 ∷ 4883 ∷ 4881 ∷ 4878 ∷ 4876 ∷ 4874
    ∷ 4872 ∷ 4870 ∷ 4868 ∷ 4865 ∷ 4863 ∷ 4861 ∷ 4859 ∷ 4857 ∷ 4855 ∷ 4852 ∷ 4850 ∷ 4848 ∷ 4846
    ∷ 4844 ∷ 4842 ∷ 4840 ∷ 4837 ∷ 4835 ∷ 4833 ∷ 4831 ∷ 4829 ∷ 4827 ∷ 4824 ∷ 4822 ∷ 4820 ∷ 4818
    ∷ 4816 ∷ 4814 ∷ 4812 ∷ 4809 ∷ 4807 ∷ 4805 ∷ 4803 ∷ 4801 ∷ 4799 ∷ 4797 ∷ 4794 ∷ 4792 ∷ 4790
    ∷ 4788 ∷ 4786 ∷ 4784 ∷ 4782 ∷ 4780 ∷ 4777 ∷ 4775 ∷ 4773 ∷ 4771 ∷ 4769 ∷ 4767 ∷ 4765 ∷ 4763
    ∷ 4760 ∷ 4758 ∷ 4756 ∷ 4754 ∷ 4752 ∷ 4750 ∷ 4748 ∷ 4746 ∷ 4744 ∷ 4741 ∷ 4739 ∷ 4737 ∷ 4735
    ∷ 4733 ∷ 4731 ∷ 4729 ∷ 4727 ∷ 4725 ∷ 4722 ∷ 4720 ∷ 4718 ∷ 4716 ∷ 4714 ∷ 4712 ∷ 4710 ∷ 4708
    ∷ 4706 ∷ 4704 ∷ 4701 ∷ 4699 ∷ 4697 ∷ 4695 ∷ 4693 ∷ 4691 ∷ 4689 ∷ 4687 ∷ 4685 ∷ 4683 ∷ 4681
    ∷ 4678 ∷ 4676 ∷ 4674 ∷ 4672 ∷ 4670 ∷ 4668 ∷ 4666 ∷ 4664 ∷ 4662 ∷ 4660 ∷ 4658 ∷ 4656 ∷ 4654
    ∷ 4651 ∷ 4649 ∷ 4647 ∷ 4645 ∷ 4643 ∷ 4641 ∷ 4639 ∷ 4637 ∷ 4635 ∷ 4633 ∷ 4631 ∷ 4629 ∷ 4627
    ∷ 4625 ∷ 4623 ∷ 4621 ∷ 4618 ∷ 4616 ∷ 4614 ∷ 4612 ∷ 4610 ∷ 4608 ∷ 4606 ∷ 4604 ∷ 4602 ∷ 4600
    ∷ 4598 ∷ 4596 ∷ 4594 ∷ 4592 ∷ 4590 ∷ 4588 ∷ 4586 ∷ 4584 ∷ 4582 ∷ 4580 ∷ 4578 ∷ 4575 ∷ 4573
    ∷ 4571 ∷ 4569 ∷ 4567 ∷ 4565 ∷ 4563 ∷ 4561 ∷ 4559 ∷ 4557 ∷ 4555 ∷ 4553 ∷ 4551 ∷ 4549 ∷ 4547
    ∷ 4545 ∷ 4543 ∷ 4541 ∷ 4539 ∷ 4537 ∷ 4535 ∷ 4533 ∷ 4531 ∷ 4529 ∷ 4527 ∷ 4525 ∷ 4523 ∷ 4521
    ∷ 4519 ∷ 4517 ∷ 4515 ∷ 4513 ∷ 4511 ∷ 4509 ∷ 4507 ∷ 4505 ∷ 4503 ∷ 4501 ∷ 4499 ∷ 4497 ∷ 4495
    ∷ 4493 ∷ 4491 ∷ 4489 ∷ 4487 ∷ 4485 ∷ 4483 ∷ 4481 ∷ 4479 ∷ 4477 ∷ 4475 ∷ 4473 ∷ 4471 ∷ 4469
    ∷ 4467 ∷ 4465 ∷ 4463 ∷ 4461 ∷ 4459 ∷ 4457 ∷ 4455 ∷ 4453 ∷ 4451 ∷ 4449 ∷ 4447 ∷ 4445 ∷ 4443
    ∷ 4441 ∷ 4439 ∷ 4437 ∷ 4435 ∷ 4433 ∷ 4431 ∷ 4429 ∷ 4427 ∷ 4425 ∷ 4423 ∷ 4421 ∷ 4419 ∷ 4417
    ∷ 4415 ∷ 4413 ∷ 4411 ∷ []
